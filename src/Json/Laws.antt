-- ===== src/Json/Laws.antt =====
-- What the operations of a dict do to its keys.
use agents_python_cloudflare.Prelude.{
  String, ◌≡◌, refl, ◌∙◌, false, none, some, ◌==◌, arith, eq_iff, if◌then◌else◌,
}
use agents_python_cloudflare.Json.{Json, Fields, end, field, get_key, set_key, pop_key}

pub get_key-set_key :
    (k key : String) (v : Json) (fs : Fields)
    → get_key k (set_key key v fs) ≡ (if key == k then some v else get_key k fs)
unfolding get_key set_key
get_key-set_key k key v end = refl
get_key-set_key k key v (field other w fs) =
    ground (arith, get_key-set_key k key v fs, eq_iff other key, eq_iff key k, eq_iff other k)

pub get_key-pop_key :
    (k key : String) (fs : Fields)
    → get_key k (pop_key key fs) ≡ (if key == k then none else get_key k fs)
unfolding get_key pop_key
get_key-pop_key k key end = ground arith
get_key-pop_key k key (field other w fs) =
    ground (arith, get_key-pop_key k key fs, eq_iff other key, eq_iff key k, eq_iff other k)

pub set_key-other :
    (k key : String) (v : Json) (fs : Fields)
    → (key == k) ≡ false
    → get_key k (set_key key v fs) ≡ get_key k fs
set_key-other k key v fs h = get_key-set_key k key v fs ∙ rw h refl

pub pop_key-other :
    (k key : String) (fs : Fields) → (key == k) ≡ false → get_key k (pop_key key fs) ≡ get_key k fs
pop_key-other k key fs h = get_key-pop_key k key fs ∙ rw h refl
