-- ===== src/Chat/Folding/Final.antt =====
-- What a final output says of a part's state.
use agents_python_cloudflare.Prelude.{
  ◌≡◌, refl, String, true, false, Option, some, ◌==◌, arith, eq_iff, Bool-cases, inl, inr,
}
use agents_python_cloudflare.Json.{Json, text, Fields, get_key, is_text_of}
use agents_python_cloudflare.Chat.Folding.Tools.{is_state, is_resolved, is_settled, is_final_output}

state_differs :
    (o : Option Json) (a b : String)
    → is_text_of a o ≡ true
    → (a == b) ≡ false
    → is_text_of b o ≡ false
state_differs (some (text s)) a b h ne = let e : s ≡ a = (eq_iff s a).0 h in rw e ne
state_differs _ a b h ne = absurd (cc)

pub final-streaming :
    (part : Fields) → is_final_output part ≡ true → is_state "input-streaming" part ≡ false
final-streaming part h = elim (Bool-cases (is_state "output-error" part)) [
  | inl e ↦ state_differs (get_key "state" part) "output-error" "input-streaming" e refl
  | inr n ↦ elim (Bool-cases (is_state "output-denied" part)) [
    | inl e ↦ state_differs (get_key "state" part) "output-denied" "input-streaming" e refl
    | inr m ↦
        state_differs (get_key "state" part) "output-available" "input-streaming" (ground arith)
          refl
  ]
]

pub final-resolved : (part : Fields) → is_final_output part ≡ true → is_resolved part ≡ true
final-resolved part h = ground arith

pub final-settled : (part : Fields) → is_final_output part ≡ true → is_settled part ≡ true
final-settled part h = ground arith
