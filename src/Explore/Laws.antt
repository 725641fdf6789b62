-- ===== src/Explore/Laws.antt =====
-- What the page shows to whom.
use gitarena.Prelude.{zero, suc, Bool, ◌≡◌, ◌≢◌, some, ◌∷◌, ◌++◌, Text, All, codes, refl, text_eq}
use gitarena.Prelude.Words.{split_once-append}
use gitarena.Explore.Rows.{not_internal, not_private}
use gitarena.Database.{Repository}
use gitarena.Prelude.{zero, suc, Option, none, not, ◌&&◌, ◌||◌, is_none}
use gitarena.Explore.{true, ExploreOptions, Order, ascending, descending, display, parse_order}

-- An order that is printed behind a method without an underscore is read back.
pub parse_order-display :
    (method : Text) (order : Order)
    → All (λ c. c ≢ b'_') method
    → parse_order (method ++ b'_' ∷ display order) ≡ some (method, order)
unfolding parse_order text_eq
parse_order-display method ascending h = rw (split_once-append b'_' method (codes "asc") h) refl
parse_order-display method descending h = rw (split_once-append b'_' method (codes "desc") h) refl

-- Whether a switch of the query string is on, which it is where it is left out.
abbrev pub is_on : Option Text → Bool
is_on none = true
is_on (some value) = text_eq value (codes "1")

-- What the conditions of the options say of a row.
abbrev admits : ExploreOptions → Repository → Bool
admits o row =
    (o.archived || not row.archived)
    && ((o.forked || is_none row.forked_from)
        && ((o.mirrored || is_none row.mirrored_from)
            && ((o.internal || not_internal row.visibility)
                && ((o.disabled || not row.disabled) && not_private row.visibility))))
