-- ===== src/AdminSettings/Laws.antt =====
-- The settings stay readable.
use gitarena.AdminSettings.Readable.{Lowercase, IsReadable, update-IsReadable}
use gitarena.Prelude.{
  ◌≢◌, ◌≡◌, ◌⊎◌, refl, sym, ap, ◌∙◌, Bool, true, false, ◌||◌, Option, none, some, List, [], ◌∷◌,
  Text, codes, text_eq, text_eq_of, inl, inr, arith, All, find?-Mem, All-Mem, is_empty, not,
  if◌then◌else◌,
}
use gitarena.Prelude.Number.{parse_i32, parse_from}
use gitarena.Error.{ok, err, other, ok_or, status_message, die_message}
use gitarena.Exec.{◌>>=◌, lift}
use gitarena.Exec.Keeps.{
  Keeps-weaken, Keeps, Anything, Keeps-lift, Keeps-any, Keeps-pure, Keeps-gets, Keeps-modify,
  Keeps-bind,
}
use gitarena.Request.{Request, header}
use gitarena.Users.{WebUser, into_user}
use gitarena.Database.{
  Setting, TypeConstraint, int, boolean, char, string, bytes, Connection, begin, commit, execute,
}
use gitarena.Config.Laws.{find_setting-set_setting, get_setting-changed}
use gitarena.Config.Write.{write_checked, fits, write_setting}
use gitarena.Config.{to_i32, find_setting, set_setting, get_setting}
use gitarena.AdminSettings.{
  write_setting, outcome, change_all, as_admin, answer, User, patch_setting, patch_all,
  is_valid_value, change_found, write_valid, patch_trigger, patch_settings, no_content, finish,
  refusal,
}

module _ (to_lowercase : Text → Text) (types : Text → TypeConstraint)
    (lowercase : Lowercase to_lowercase) where
  abbrev AllReadable : Connection → Type 0
  AllReadable c =
      All (IsReadable to_lowercase types) c.committed.settings
      × All (IsReadable to_lowercase types) c.current.settings

  found-type :
      (key : Text) (c : Connection) (setting : Setting)
      → AllReadable c
      → find_setting key c.current ≡ some setting
      → setting.type_constraint ≡ types key
  unfolding find_setting
  found-type key c setting (p, h) e =
      let (m, like) = find?-Mem (λ s. text_eq s.key key) c.current.settings setting e in
      (All-Mem (IsReadable to_lowercase types) setting c.current.settings m h).typed
      ∙ ap types (text_eq_of setting.key key like)

  -- What is known of a look-up for the key.
  abbrev HasType : Text → Option Setting → Type 0
  HasType key found =
      (found ≡ none) ⊎ ((s : Setting) × (found ≡ some s) × (s.type_constraint ≡ types key))

  look_up :
      (key : Text) (c : Connection) (found : Option Setting)
      → find_setting key c.current ≡ found
      → AllReadable c
      → HasType key found
  look_up key c none e h = inl refl
  look_up key c (some s) e h = inr (s, refl, found-type key c s h e)

  chosen :
      (key : Text) (found : Option Setting) (s : Setting)
      → HasType key found
      → ok_or (status_message 400 (codes "Setting not found")) found ≡ ok s
      → s.type_constraint ≡ types key
  chosen key none s t e = absurd (cc)
  chosen key (some r) s (inl h) e = absurd (cc)
  chosen key (some r) s (inr (q, h, t)) e =
      let same : q ≡ s = cc in ap (λ x. x.type_constraint) (sym same) ∙ t

  checked :
      (is_valid : Bool) (message : Text) (u : Unit {0})
      → (if not is_valid then die_message 400 message else ok tt) ≡ ok u
      → is_valid ≡ true
  checked true message u e = refl
  checked false message u e = absurd (cc)

  write_valid-Keeps :
      (key value : Text) (setting : Setting)
      → setting.type_constraint ≡ types key
      → Keeps AllReadable (write_valid key value setting) Anything
  unfolding set_setting write_setting
  write_valid-Keeps key value setting typed =
      Keeps-bind AllReadable (λ u. write_setting key value)
        (λ u. is_valid_value (types key) value ≡ true) Anything
        (λ u valid.
          Keeps-bind AllReadable (write_checked key value) Anything Anything
            (λ row p.
              Keeps-bind AllReadable (λ u. execute (set_setting key value)) Anything Anything
                (λ u q. Keeps-modify AllReadable _ (λ c h. (
                  h.0,
                  update-IsReadable to_lowercase types lowercase key value c.current.settings valid
                      h.1,
                )))
                _ (Keeps-any AllReadable (fits value row)))
            _ (Keeps-gets AllReadable (λ c. find_setting key c.current) Anything (λ c h. tt)))
        _
        (Keeps-lift AllReadable _ _ (λ u e.
          rw⁻¹ typed (checked (is_valid_value setting.type_constraint value) (refusal key) u e)))

  patch_setting-Keeps : (key value : Text) → Keeps AllReadable (patch_setting key value) Anything
  unfolding patch_setting
  patch_setting-Keeps key value =
      Keeps-bind AllReadable (change_found key value) (HasType key) Anything
        (λ found t.
          Keeps-bind AllReadable (write_valid key value) (λ s. s.type_constraint ≡ types key)
            Anything (write_valid-Keeps key value) _
            (Keeps-lift AllReadable _ _ (λ s e. chosen key found s t e)))
        _ (Keeps-gets AllReadable _ _ (λ c h. look_up key c (find_setting key c.current) refl h))

  patch_all-Keeps :
      (form : List (Text × Text)) (once : Bool)
      → Keeps AllReadable (patch_all form once) (λ b. b ≡ (once || not (is_empty form)))
  unfolding patch_all
  patch_all-Keeps [] once = Keeps-pure AllReadable once _ (ground arith)
  patch_all-Keeps ((key, value) ∷ form) once =
      Keeps-bind AllReadable _ Anything _
        (λ u p. Keeps-weaken AllReadable _ _ _ (patch_all-Keeps form true) (λ b e. ground arith)) _
        (patch_setting-Keeps key value)

  -- The end of the handler for a form that holds something.
  finish-Keeps :
      (request : Request) (once : Bool)
      → once ≡ true
      → Keeps AllReadable (finish request once) Anything
  finish-Keeps request true e =
      Keeps-bind AllReadable answer Anything Anything
        (λ completed p.
          Keeps-bind AllReadable (λ u. lift (outcome completed)) Anything Anything
            (λ u q. Keeps-any AllReadable _) commit
            (Keeps-modify AllReadable _ (λ c h. (h.1, h.1))))
        _ (Keeps-pure AllReadable true Anything tt)
  finish-Keeps request false e = absurd (cc)

  change_all-Keeps :
      (form : List (Text × Text)) (request : Request)
      → is_empty form ≡ false
      → Keeps AllReadable (change_all form request) Anything
  change_all-Keeps form request some_form =
      Keeps-bind AllReadable (λ u. patch_all form false >>= finish request) Anything Anything
        (λ u p.
          Keeps-bind AllReadable (finish request) (λ b. b ≡ true) Anything (finish-Keeps request)
            (patch_all form false)
            (Keeps-weaken AllReadable _ _ _ (patch_all-Keeps form false)
              (λ b e. rw some_form at e)))
        begin (Keeps-modify AllReadable _ (λ c h. (h.0, h.0)))

  patch_settings-Keeps :
      (form : List (Text × Text)) (web_user : WebUser) (request : Request)
      → is_empty form ≡ false
      → Keeps AllReadable (patch_settings form web_user request) Anything
  unfolding patch_settings
  patch_settings-Keeps form web_user request some_form =
      Keeps-bind AllReadable (as_admin form request) Anything Anything
        (λ user p.
          Keeps-bind AllReadable (λ u. change_all form request) Anything Anything
            (λ u q. change_all-Keeps form request some_form) _ (Keeps-any AllReadable _))
        _ (Keeps-any AllReadable (into_user web_user))

  -- Of settings that are readable before a request with a form, committed or not, all are after it,
  -- whatever the form holds, whoever sends it and however the request ends.
  pub patch_settings-IsReadable :
      (form : List (Text × Text)) (web_user : WebUser) (request : Request) (c : Connection)
      → is_empty form ≡ false
      → All (IsReadable to_lowercase types) c.committed.settings
      → All (IsReadable to_lowercase types) c.current.settings
      → All
          (IsReadable to_lowercase types)
          (patch_settings form web_user request c).1.committed.settings
  patch_settings-IsReadable form web_user request c some_form h k =
      ((patch_settings-Keeps form web_user request some_form).kept c (h, k)).0

false-number :
    (setting : Setting)
    → setting.type_constraint ≡ int
    → to_i32 (record setting { value = some (codes "false") }) ≡ err other
unfolding to_i32 parse_i32 parse_from
false-number setting n = rw n refl

-- A setting of numbers that is `false` is not read.
number_lost :
    (setting : Setting) (t : TypeConstraint)
    → setting.type_constraint ≡ t
    → (setting.type_constraint ≢ int)
      ⊎ (to_i32 (record setting { value = some (codes "false") }) ≡ err other)
number_lost setting int e = inr (false-number setting e)
number_lost setting boolean e = inl (λ n. absurd (cc))
number_lost setting char e = inl (λ n. absurd (cc))
number_lost setting string e = inl (λ n. absurd (cc))
number_lost setting bytes e = inl (λ n. absurd (cc))

-- Without form data an administrator's request writes `false` to the setting that the header names,
-- whatever its type, which it leaves as it is, and is answered as a success. If that type is int, the
-- setting can then not be read as a number.
pub patch_settings-trigger :
    (web_user : WebUser) (user : User) (request : Request) (key : Text) (c : Connection)
    (setting : Setting)
    → into_user web_user ≡ ok user
    → user.admin ≡ true
    → header (codes "hx-trigger-name") request ≡ some key
    → find_setting key c.committed ≡ some setting
    → ((patch_settings [] web_user request c).0 ≡ ok no_content)
      × (find_setting key (patch_settings [] web_user request c).1.committed
          ≡ some (record setting { value = some (codes "false") }))
      × ((setting.type_constraint ≢ int)
          ⊎ (get_setting to_i32 key (patch_settings [] web_user request c).1.committed ≡ err other))
unfolding patch_settings patch_all patch_trigger write_setting
patch_settings-trigger web_user user request key c setting u a t f =
    let read = get_setting-changed to_i32 key (codes "false") c.committed setting f in
    rw (u, a, t, f)
      (
        refl,
        find_setting-set_setting key (codes "false") c.committed setting f,
        elim (number_lost setting setting.type_constraint refl) [
          | inl other_type ↦ inl other_type
          | inr lost ↦ inr (read ∙ lost)
        ],
      )
