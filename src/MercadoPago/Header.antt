-- ===== src/MercadoPago/Header.antt =====
-- internal/provider/mercadopago/webhook.go: what is read from a signature header.
use billax.Prelude.{
  ◌≡◌, ◌≢◌, ◌⊎◌, refl, sym, inl, inr, ap, ◌∙◌, Bool-cases, List, join, join-split, IsOneOf, false,
  [], ◌∷◌, ◌++◌, Text, codes, text_eq, text_eq→eq, split,
}
use billax.MercadoPago.Signature.{SignatureHeader, read_pair, read_header, read_parts}

abbrev nothing_read : SignatureHeader
nothing_read = record { ts = []; v1 = [] }

-- What is read from a header stands in it.
read_pair_ts :
    (h : SignatureHeader) (ps : List Text)
    → ((read_pair h ps).ts ≡ h.ts) ⊎ (join b'=' ps ≡ codes "ts=" ++ (read_pair h ps).ts)
read_pair_ts h [] = inl refl
read_pair_ts h (k ∷ []) = inl refl
read_pair_ts h (k ∷ v ∷ []) = elim (Bool-cases (text_eq k (codes "ts"))) [
  | inl here ↦ rw here (inr (ap (λ t. t ++ b'=' ∷ v) (text_eq→eq k (codes "ts") here)))
  | inr other ↦ elim (Bool-cases (text_eq k (codes "v1"))) [
    | inl here ↦ rw (other, here) (inl refl)
    | inr neither ↦ rw (other, neither) (inl refl)
  ]
]
read_pair_ts h (k ∷ v ∷ x ∷ ps) = inl refl

read_pair_v1 :
    (h : SignatureHeader) (ps : List Text)
    → ((read_pair h ps).v1 ≡ h.v1) ⊎ (join b'=' ps ≡ codes "v1=" ++ (read_pair h ps).v1)
read_pair_v1 h [] = inl refl
read_pair_v1 h (k ∷ []) = inl refl
read_pair_v1 h (k ∷ v ∷ []) = elim (Bool-cases (text_eq k (codes "ts"))) [
  | inl here ↦ rw here (inl refl)
  | inr other ↦ elim (Bool-cases (text_eq k (codes "v1"))) [
    | inl here ↦ rw (other, here) (inr (ap (λ t. t ++ b'=' ∷ v) (text_eq→eq k (codes "v1") here)))
    | inr neither ↦ rw (other, neither) (inl refl)
  ]
]
read_pair_v1 h (k ∷ v ∷ x ∷ ps) = inl refl

read_parts_ts :
    (h : SignatureHeader) (parts : List Text)
    → ((read_parts h parts).ts ≡ h.ts) ⊎ IsOneOf (codes "ts=" ++ (read_parts h parts).ts) parts
unfolding read_parts
read_parts_ts h [] = inl refl
read_parts_ts h (part ∷ parts) =
    let next = read_pair h (split b'=' part) in
    elim (read_parts_ts next parts) [
      | inr later ↦ inr (inr later)
      | inl kept ↦ elim (read_pair_ts h (split b'=' part)) [
        | inl same ↦ inl (kept ∙ same)
        | inr here ↦
            inr (inl (sym (join-split b'=' part) ∙ here ∙ ap (λ t. codes "ts=" ++ t) (sym kept)))
      ]
    ]

read_parts_v1 :
    (h : SignatureHeader) (parts : List Text)
    → ((read_parts h parts).v1 ≡ h.v1) ⊎ IsOneOf (codes "v1=" ++ (read_parts h parts).v1) parts
unfolding read_parts
read_parts_v1 h [] = inl refl
read_parts_v1 h (part ∷ parts) =
    let next = read_pair h (split b'=' part) in
    elim (read_parts_v1 next parts) [
      | inr later ↦ inr (inr later)
      | inl kept ↦ elim (read_pair_v1 h (split b'=' part)) [
        | inl same ↦ inl (kept ∙ same)
        | inr here ↦
            inr (inl (sym (join-split b'=' part) ∙ here ∙ ap (λ t. codes "v1=" ++ t) (sym kept)))
      ]
    ]

pub text_eq-ne-nil : (s : Text) → text_eq s [] ≡ false → s ≢ []
unfolding text_eq
text_eq-ne-nil [] h = cc h
text_eq-ne-nil (c ∷ s) h = λ e. cc e

-- A value that is not empty was read.
pub read_header_ts :
    (raw : Text)
    → (read_header raw).ts ≢ []
    → IsOneOf (codes "ts=" ++ (read_header raw).ts) (split b',' raw)
unfolding read_header
read_header_ts raw some_ts = elim (read_parts_ts nothing_read (split b',' raw)) [
  | inl kept ↦ absurd (some_ts kept)
  | inr there ↦ there
]

pub read_header_v1 :
    (raw : Text)
    → (read_header raw).v1 ≢ []
    → IsOneOf (codes "v1=" ++ (read_header raw).v1) (split b',' raw)
unfolding read_header
read_header_v1 raw some_v1 = elim (read_parts_v1 nothing_read (split b',' raw)) [
  | inl kept ↦ absurd (some_v1 kept)
  | inr there ↦ there
]
