-- ===== src/Config/Quotes.antt =====
-- What `convert` writes between quotes, `load` reads back.
use event_server.Base.{
  ℕ, ◌≡◌, refl, sym, ap, ap₂, ◌∙◌, Bool, true, false, ◌⊎◌, inl, inr, List, [], ◌∷◌, ◌++◌, arith,
  Bool-cases, ◌==◌, ==_iff, subst,
}
use event_server.Config.Texts.{convert, first_char, is_escape, unquote_from, unquote}

-- The text ends in a backslash.
unfoldable pub ends_slash : List ℕ → Bool
ends_slash [] = false
ends_slash (c ∷ []) = c == 92
ends_slash (c ∷ d ∷ rest) = ends_slash (d ∷ rest)

unquote_end : (rest : List ℕ) → unquote (34 ∷ rest) ≡ []
unfolding unquote_from is_escape
unquote_end rest = refl

unquote_escaped : (rest : List ℕ) → unquote (92 ∷ (34 ∷ rest)) ≡ 34 ∷ unquote rest
unfolding unquote_from is_escape first_char
unquote_escaped rest = refl

unquote_plain :
    (c d : ℕ) (rest : List ℕ)
    → (c == 34) ≡ false
    → is_escape c (d ∷ rest) ≡ false
    → unquote (c ∷ (d ∷ rest)) ≡ c ∷ unquote (d ∷ rest)
unfolding unquote_from
unquote_plain c d rest e f = ground arith

convert_empty : convert [] ≡ []
unfolding convert
convert_empty = refl

convert_quote : (c : ℕ) (s : List ℕ) → (c == 34) ≡ true → convert (c ∷ s) ≡ 92 ∷ (34 ∷ convert s)
unfolding convert
convert_quote c s e = rw e

convert_plain : (c : ℕ) (s : List ℕ) → (c == 34) ≡ false → convert (c ∷ s) ≡ c ∷ convert s
unfolding convert
convert_plain c s e = rw e

not_escape :
    (c d : ℕ) (rest : List ℕ)
    → (c == 92) ≡ false ⊎ (d == 34) ≡ false
    → is_escape c (d ∷ rest) ≡ false
unfolding is_escape first_char
not_escape c d rest (inl e) = rw e refl
not_escape c d rest (inr e) = elim (Bool-cases (c == 92)) [ inl f ↦ rw (f, e) | inr f ↦ rw f refl ]

-- A character that is no quote is read alone.
unquote_next :
    (c : ℕ) (s rest : List ℕ)
    → (c == 34) ≡ false
    → ends_slash (c ∷ s) ≡ false
    → unquote (c ∷ (convert s ++ 34 ∷ rest)) ≡ c ∷ unquote (convert s ++ 34 ∷ rest)
unfolding ends_slash convert
unquote_next c [] rest e h = unquote_plain c 34 rest e (not_escape c 34 _ (inl h))
unquote_next c (x ∷ s) rest e h = elim (Bool-cases (x == 34)) [
  | inl f ↦
      subst (λ l. unquote (c ∷ (l ++ 34 ∷ rest)) ≡ c ∷ unquote (l ++ 34 ∷ rest))
        (sym (convert_quote x s f)) (unquote_plain c 92 _ e (not_escape c 92 _ (inr refl)))
  | inr f ↦
      subst (λ l. unquote (c ∷ (l ++ 34 ∷ rest)) ≡ c ∷ unquote (l ++ 34 ∷ rest))
        (sym (convert_plain x s f)) (unquote_plain c x _ e (not_escape c x _ (inr f)))
]

ends_slash_rest : (c : ℕ) (s : List ℕ) → ends_slash (c ∷ s) ≡ false → ends_slash s ≡ false
unfolding ends_slash
ends_slash_rest c [] h = refl
ends_slash_rest c (d ∷ s) h = h

-- Between quotes, `convert` writes what `load` reads back to the same text, unless the text ends in a
-- backslash.
pub unquote-convert :
    (s rest : List ℕ) → ends_slash s ≡ false → unquote (convert s ++ 34 ∷ rest) ≡ s
unquote-convert [] rest h = ap (λ l. unquote (l ++ 34 ∷ rest)) convert_empty ∙ unquote_end rest
unquote-convert (c ∷ s) rest h =
    let again : unquote (convert s ++ 34 ∷ rest) ≡ s =
      unquote-convert s rest (ends_slash_rest c s h) in
    elim (Bool-cases (c == 34)) [
      | inl e ↦
          ap (λ l. unquote (l ++ 34 ∷ rest)) (convert_quote c s e)
          ∙ unquote_escaped (convert s ++ 34 ∷ rest)
          ∙ ap₂ (λ x l. x ∷ l) (sym ((==_iff c 34).0 e)) again
      | inr e ↦
          ap (λ l. unquote (l ++ 34 ∷ rest)) (convert_plain c s e)
          ∙ unquote_next c s rest e h
          ∙ ap (λ l. c ∷ l) again
    ]
