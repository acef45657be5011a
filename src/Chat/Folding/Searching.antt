-- ===== src/Chat/Folding/Searching.antt =====
-- What a search for the last part finds after parts are appended or changed.
use agents_python_cloudflare.Prelude.{
  ◌≡◌, refl, String, Bool, true, false, Option, none, some, List, [], ◌∷◌, ◌++◌, ◌==◌, arith,
  if◌then◌else◌,
}
use agents_python_cloudflare.Json.{Json, object, Fields, get_key, set_key, is_null}
use agents_python_cloudflare.Json.Laws.{set_key-other}
use agents_python_cloudflare.Chat.Folding.Parts.{
  Builtins, find_last, update_last, copy_value, value_of, merge_metadata, is_value,
}

find_last-update_none :
    (q r : Fields → Bool) (f : Fields → Fields) (parts : List Fields)
    → ((x : Fields) → r x ≡ true → q (f x) ≡ q x)
    → find_last q parts ≡ none
    → find_last q (update_last r f parts) ≡ none
unfolding find_last update_last
find_last-update_none q r f [] same h = refl
find_last-update_none q r f (x ∷ parts) same h =
    ground (arith, same x, find_last-update_none q r f parts same)

-- Where the change leaves alone the found part, and whether any part is looked for, it is still found.
pub find_last-update_last :
    (q r : Fields → Bool) (f : Fields → Fields) (parts : List Fields) (part : Fields)
    → ((x : Fields) → r x ≡ true → q (f x) ≡ q x)
    → r part ≡ false
    → find_last q parts ≡ some part
    → find_last q (update_last r f parts) ≡ some part
unfolding find_last update_last
find_last-update_last q r f [] part same kept h = absurd (cc)
find_last-update_last q r f (x ∷ parts) part same kept h = ground (
  arith,
  same x,
  find_last-update_none q r f parts same,
  find_last-update_last q r f parts part same kept,
)

pub find_last-append :
    (q : Fields → Bool) (parts : List Fields) (x : Fields)
    → q x ≡ false
    → find_last q (parts ++ x ∷ []) ≡ find_last q parts
unfolding find_last
find_last-append q [] x h = rw h refl
find_last-append q (y ∷ parts) x h = rw (find_last-append q parts x h) refl

pub find_last-passes :
    (q : Fields → Bool) (parts : List Fields) (part : Fields)
    → find_last q parts ≡ some part
    → q part ≡ true
unfolding find_last
find_last-passes q [] part h = absurd (cc)
find_last-passes q (x ∷ parts) part h = ground (arith, find_last-passes q parts part)

pub copy_value-other :
    (k key : String) (value : Option Json) (fs : Fields)
    → (key == k) ≡ false
    → get_key k (copy_value key value fs) ≡ get_key k fs
copy_value-other k key value fs h = go (is_null value)
  where
    go : (b : Bool) → get_key k (if b then fs else set_key key (value_of value) fs) ≡ get_key k fs
    go true = refl
    go false = set_key-other k key (value_of value) fs h

pub merge_metadata-other :
    (py : Builtins) (k key : String) (value : Option Json) (fs : Fields)
    → (key == k) ≡ false
    → get_key k (merge_metadata py fs key value).1 ≡ get_key k fs
unfolding merge_metadata
merge_metadata-other py k key (some (object value)) fs h = go (is_value py (get_key key fs) _) _
  where
    go :
        (b : Bool) (merged : Json)
        → (let x : Bool × Fields = if b then (false, fs) else (true, set_key key merged fs) in
            get_key k x.1)
          ≡ get_key k fs
    go true merged = refl
    go false merged = set_key-other k key merged fs h
merge_metadata-other py k key value fs h = refl
