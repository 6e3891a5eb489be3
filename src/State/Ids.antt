-- ===== src/State/Ids.antt =====
-- The ids of channels in state.py: `_slug`, `_next_id`, and the split of a target at its slash.
-- `lower` is Python's `str.lower`, `country_code` the lookup of geo.py in pycountry's tables.
pub mod Fresh
use anyhop.Prelude.{
  ℕ, zero, suc, ◌+◌, Bool, true, false, not, ◌&&◌, ◌||◌, Option, none, some, List, [], ◌∷◌, ◌++◌,
  reverse, Text, ◌==◌, contains, codes, leb, list_eq, nat_eq, if◌then◌else◌,
}
use anyhop.Prelude.Decimal.{show}
use anyhop.Prelude.Lists.{length}

is_slug_char : ℕ → Bool
is_slug_char c = (leb b'a' c && leb c b'z') || (leb b'0' c && leb c b'9')

-- `re.sub(r"[^a-z0-9]+", "_", text)`: whether the character before was replaced comes first.
collapse : Bool → Text → Text
collapse replaced [] = []
collapse replaced (c ∷ text) =
    let inside = c ∷ collapse false text in
    let outside = collapse true text in
    if is_slug_char c then inside else if replaced then outside else b'_' ∷ outside

strip_left : ℕ → Text → Text
strip_left c [] = []
strip_left c (x ∷ text) = let rest = strip_left c text in if x == c then rest else x ∷ text

strip : ℕ → Text → Text
strip c text = reverse (strip_left c (reverse (strip_left c text)))

-- `text or fallback`
unfoldable pub or_else : Text → Text → Text
or_else [] fallback = fallback
or_else (c ∷ text) fallback = c ∷ text

unfoldable pub slug : (Text → Text) → Text → Text
unfolding is_slug_char collapse strip_left strip
slug lower text = or_else (strip b'_' (collapse false (lower text))) (codes "channel")

-- The id that `_next_id` tries with a number.
unfoldable pub numbered : Text → ℕ → Text
numbered base n = base ++ b'_' ∷ show n

-- `while f"{base}_{n}" in taken: n += 1`, with as many rounds left as the fuel.
unfoldable pub count_up : Text → List Text → ℕ → ℕ → ℕ
count_up base taken zero n = n
count_up base taken (suc fuel) n =
    let rest = count_up base taken fuel (n + 1) in
    if contains taken (numbered base n) then rest else n

-- `_next_id` without a hint, which no caller gives. The ids are numbered from 1, and one of
-- `length taken + 1` numbers is free.
unfoldable pub id_base : (Text → Text) → (Text → Text) → Text → Text → Text
id_base lower country_code [] [] = codes "channel"
id_base lower country_code country city =
    codes "wg_"
    ++ or_else (country_code country) (slug lower country)
    ++ (if city == [] then [] else b'_' ∷ slug lower city)

unfoldable pub next_id : (Text → Text) → (Text → Text) → List Text → Text → Text → Text
next_id lower country_code taken country city =
    let base = id_base lower country_code country city in
    numbered base (count_up base taken (suc (length taken)) 1)

-- `target.partition("/")` without the slash.
unfoldable pub partition : Text → Text × Text
partition [] = ([], [])
partition (c ∷ text) =
    let (provider, cid) = partition text in if c == b'/' then ([], text) else (c ∷ provider, cid)

-- The channel that a target names, if it names one.
unfoldable pub target_ref : Text → Option (Text × Text)
target_ref target =
    let (provider, cid) = partition target in if cid == [] then none else some (provider, cid)
