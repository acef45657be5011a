-- ===== src/Chat/Folding/Ids.antt =====
-- Equality of the ids of tool calls, where `==` is that of JSON values.
use agents_python_cloudflare.Prelude.{
  ◌≡◌, refl, sym, ◌∙◌, ap, String, Bool, true, false, ◌&&◌, Option, none, some, ◌==◌, arith, eq_iff,
  Option-cases, inl, inr,
}
use agents_python_cloudflare.Json.{Json, null, text, Fields, get_key, as_text, is_text_of}
use agents_python_cloudflare.Chat.Folding.Parts.{Builtins, is_call, value_of}
use agents_python_cloudflare.Chat.Folding.Late.{as_text-some}

-- What is asked of `==`: texts are equal where they are the same, and equal to nothing else.
pub record IsEquality (py : Builtins) : Type 0 where
  pub texts : (s t : String) → py.same (text s) (text t) ≡ (s == t)
  pub kinds :
      (v : Json) (t : String)
      → as_text (some v) ≡ none
      → (py.same v (text t) ≡ false) × (py.same (text t) v ≡ false)

is_that_text : (v : Json) (s : String) → as_text (some v) ≡ some s → v ≡ text s
is_that_text v s h = let e = as_text-some (some v) s h in cc

and_false : (b : Bool) → (b && false) ≡ false
and_false b = ground arith

pub is_id : (id : String) (o : Option Json) → is_text_of id o ≡ true → o ≡ some (text id)
is_id id (some (text s)) h = ap (λ t. some (text t)) ((eq_iff s id).0 h)
is_id id _ h = absurd (cc)

module _ (py : Builtins) (eq : IsEquality py) (id : String) where
  abbrev pub of_call : Fields → Bool
  of_call x = is_call py (some (text id)) x

  -- A value that is not the id is not equal to it.
  pub not_id : (v : Json) → is_text_of id (some v) ≡ false → py.same v (text id) ≡ false
  not_id v h = elim (Option-cases (as_text (some v))) [
    | inl kind ↦ (eq.kinds v id kind).0
    | inr (s, is_s) ↦
        let e' = is_that_text v s is_s in
        let h' : (s == id) ≡ false = rw e' at h in rw e' (eq.texts s id ∙ h')
  ]

  pub value_other :
      (o : Option Json) → is_text_of id o ≡ false → py.same (value_of o) (text id) ≡ false
  value_other none h = not_id null refl
  value_other (some v) h = not_id v h

  pub no_id : (x : Fields) → get_key "toolCallId" x ≡ none → of_call x ≡ false
  no_id x e = rw e (and_false _)

  pub other_id :
      (x : Fields) (u : Json)
      → get_key "toolCallId" x ≡ some u
      → py.same u (text id) ≡ false
      → of_call x ≡ false
  other_id x u e h = rw (e, h) (and_false _)

  -- What is equal to a value that is not the id is not equal to the id.
  same_apart :
      (v u : Json)
      → is_text_of id (some u) ≡ false
      → py.same v u ≡ true
      → py.same v (text id) ≡ false
  same_apart v u other h = elim (Option-cases (as_text (some v))) [
    | inl kind ↦ (eq.kinds v id kind).0
    | inr (s, is_s) ↦ elim (Option-cases (as_text (some u))) [
      | inl kind ↦
          let e' = is_that_text v s is_s in
          absurd (
            let f : py.same (text s) u ≡ false = (eq.kinds u s kind).1 in
            let f' : py.same (text s) u ≡ true = rw e' at h in cc)
      | inr (t, is_t) ↦
          let e : some v ≡ some (text s) = as_text-some (some v) s is_s in
          let e' : v ≡ text s = cc in
          let d' = is_that_text u t is_t in
          let h' : py.same (text s) (text t) ≡ true = rw (e', d') at h in
          let st : s ≡ t = (eq_iff s t).0 (sym (eq.texts s t) ∙ h') in
          let o' : (t == id) ≡ false = rw d' at other in rw e' (eq.texts s id ∙ rw st o')
    ]
  ]

  -- A part of a call whose id is another is not of this call.
  pub apart :
      (u : Option Json) (x : Fields)
      → is_text_of id u ≡ false
      → is_call py u x ≡ true
      → of_call x ≡ false
  apart none x other h = absurd (cc)
  apart (some u) x other h = elim (Option-cases (get_key "toolCallId" x)) [
    | inl missing ↦ rw missing (and_false _)
    | inr (v, is_v) ↦
        rw (is_v, same_apart v u other (let h' = rw is_v at h in ground arith)) (and_false _)
  ]
