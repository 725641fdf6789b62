-- ===== src/Explore.antt =====
-- src/routes/explore.rs: the options of the page and the query that is built from them. A query
-- string is a list of keys with their values, as the crate `qstring` reads it.
mod Rows
mod Laws
mod Tests
use gitarena.Prelude.{
  ℕ, Bool, true, false, not, Option, none, some, List, [], ◌∷◌, ◌++◌, Text, codes, text_eq,
  split_once, unwrap_or, if◌then◌else◌,
}
use gitarena.Prelude.Decimal.{decimal}
use gitarena.Error.{Result, ok, ok_or, status_message, ◌>>=◌}
use gitarena.Prelude.Number.{parse_u32}
use gitarena.Users.{WebUser, anonymous, authenticated}

pub data Order : Type 0 where
  ascending descending : Order

-- `Display for Order`
abbrev pub display : Order → Text
display ascending = codes "asc"
display descending = codes "desc"

abbrev order_of : Text → Option Order
order_of order_str =
    if text_eq order_str (codes "asc")
    then some ascending
    else if text_eq order_str (codes "desc")
    then some descending
    else none

abbrev with_method : Text → Option Order → Option (Text × Order)
with_method method none = none
with_method method (some order) = some (method, order)

abbrev parse_parts : Option (Text × Text) → Option (Text × Order)
parse_parts none = none
parse_parts (some (method, order_str)) = with_method method (order_of order_str)

-- `Order::parse`
unfoldable pub parse_order : Text → Option (Text × Order)
parse_order input = parse_parts (split_once b'_' input)

-- `QString::get`
unfoldable pub get : Text → List (Text × Text) → Option Text
get key [] = none
get key ((k, value) ∷ pairs) =
    let rest = get key pairs in if text_eq k key then some value else rest

pub record ExploreOptions : Type 0 where
  pub archived : Bool
  pub forked : Bool
  pub mirrored : Bool
  pub internal : Bool
  pub disabled : Bool
  pub sort : Text
  pub order : Order
  pub offset : ℕ
  pub htmx_request : Bool

abbrev is_one : Option Text → Bool
is_one none = true
is_one (some value) = text_eq value (codes "1")

abbrev sees_internal : WebUser → Bool
sees_internal anonymous = false
sees_internal (authenticated user) = true

abbrev sees_disabled : WebUser → Bool
sees_disabled anonymous = false
sees_disabled (authenticated user) = user.admin

abbrev offset_of : Option Text → ℕ
offset_of none = 0
offset_of (some value) = unwrap_or 0 (parse_u32 value)

-- `ExploreOptions::parse`
unfoldable pub parse_options : List (Text × Text) → WebUser → Text → Order → Bool → ExploreOptions
parse_options query web_user sort order htmx_request = record {
  archived = is_one (get (codes "archived") query);
  forked = is_one (get (codes "fork") query);
  mirrored = is_one (get (codes "mirror") query);
  internal = sees_internal web_user;
  disabled = sees_disabled web_user;
  sort = sort;
  order = order;
  offset = offset_of (get (codes "offset") query);
  htmx_request = htmx_request;
}

abbrev pub unless : Bool → Text → Text
unless set condition = if set then [] else condition

abbrev pub archived_clause : Text
archived_clause = codes "repositories.archived is false and "

abbrev pub forked_clause : Text
forked_clause = codes "repositories.forked_from is null and "

abbrev pub mirrored_clause : Text
mirrored_clause = codes "repositories.mirrored_from is null and "

abbrev pub internal_clause : Text
internal_clause = codes "repositories.visibility != 'internal' and "

abbrev pub disabled_clause : Text
disabled_clause = codes "repositories.disabled is false and "

abbrev pub private_clause : Text
private_clause =
    codes "repositories.visibility != 'private' group by repositories.id, users.id order by "

abbrev pub sort_clause : Text → Text → Text
sort_clause sort order =
    if text_eq sort (codes "stars")
    then codes "stars " ++ (order ++ codes ", id ")
    else if text_eq sort (codes "name")
    then codes "lower(name) " ++ (order ++ codes ", id ")
    else codes "id " ++ (order ++ codes " ")

-- What follows the conditions.
abbrev pub paging : ExploreOptions → Text
paging o =
    sort_clause o.sort (display o.order)
    ++ (codes "offset " ++ (decimal o.offset ++ codes " limit 20"))

-- `Display for ExploreOptions`
unfoldable pub to_query : ExploreOptions → Text
to_query o =
    codes "where "
    ++ (unless o.archived archived_clause
        ++ (unless o.forked forked_clause
            ++ (unless o.mirrored mirrored_clause
                ++ (unless o.internal internal_clause
                    ++ (unless o.disabled disabled_clause ++ (private_clause ++ paging o))))))

-- `filter` and `map`, then `join("&")`
abbrev pub without_offset : List (Text × Text) → List (Text × Text)
without_offset [] = []
without_offset ((key, value) ∷ pairs) =
    let rest = without_offset pairs in
    if not (text_eq key (codes "offset")) then (key, value) ∷ rest else rest

abbrev pub join_pairs : List (Text × Text) → Text
join_pairs [] = []
join_pairs ((key, value) ∷ []) = key ++ b'=' ∷ value
join_pairs ((key, value) ∷ pair ∷ pairs) = key ++ b'=' ∷ (value ++ b'&' ∷ join_pairs (pair ∷ pairs))

unfoldable pub query_string_without_offset : List (Text × Text) → Text
query_string_without_offset query = join_pairs (without_offset query)
