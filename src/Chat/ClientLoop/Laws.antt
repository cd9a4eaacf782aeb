-- ===== src/Chat/ClientLoop/Laws.antt =====
-- How the chatroom's client of examples/client.rs reads what its user types.
use carrier_pigeon.Base.{
  ◌≡◌, ◌≢◌, ◌⊎◌, refl, sym, ap, ◌∙◌, [], ◌∷◌, ◌++◌, true, false, inl, inr, arith, length, drop,
  drop-append, Bool-cases, ==→eq, ==-refl,
}
use carrier_pigeon.Chat.{Text, Strings}
use carrier_pigeon.Chat.ClientLoop.{
  starts_with, command, nothing, leave, say, disconnect_word, disconnect_me,
}

starts_with→append :
    (text word : Text) → starts_with text word ≡ true → (rest : Text) × (text ≡ word ++ rest)
unfolding starts_with
starts_with→append text [] h = (text, refl)
starts_with→append [] (c ∷ word) h = absurd (ground arith)
starts_with→append (b ∷ text) (c ∷ word) h =
    let (rest, e) = starts_with→append text word (ground arith) in
    let same : b ≡ c = ==→eq b c (ground arith) in (rest, rw (same, e))

starts_with-append : (word rest : Text) → starts_with (word ++ rest) word ≡ true
unfolding starts_with
starts_with-append [] rest = refl
starts_with-append (c ∷ word) rest = ground (arith, ==-refl c, starts_with-append word rest)

no_prefix : (text word : Text) → starts_with text word ≡ false → (rest : Text) → text ≢ word ++ rest
no_prefix text word not_so rest e =
    let both : false ≡ true =
      sym not_so ∙ ap (λ t. starts_with t word) e ∙ starts_with-append word rest in
    absurd (ground arith)

-- An empty line asks for nothing; a line that starts with `disconnect`, but not with
-- `disconnect-me`, asks to leave, with what follows the word, trimmed, as the reason; each other
-- line is said as it is.
pub command_cases :
    (s : Strings) (text : Text)
    → ((text ≡ []) × (command s text ≡ nothing))
      ⊎ ((rest : Text) × (text ≡ disconnect_word ++ rest)
          × ((tail : Text) → text ≢ disconnect_me ++ tail)
          × (command s text ≡ leave (s.trim rest)))
      ⊎ ((text ≢ [])
          × (((rest : Text) → text ≢ disconnect_word ++ rest)
              ⊎ ((tail : Text) × (text ≡ disconnect_me ++ tail)))
          × (command s text ≡ say text))
unfolding command
command_cases s [] = inl (refl, refl)
command_cases s (b ∷ text) = elim (Bool-cases (starts_with (b ∷ text) disconnect_me)) [
  | inl me ↦ inr (
      inr (
        (λ e. absurd (ground arith)),
        inr (starts_with→append (b ∷ text) disconnect_me me),
        rw me refl,
      ))
  | inr plain ↦ elim (Bool-cases (starts_with (b ∷ text) disconnect_word)) [
    | inl word ↦
        let (rest, e) = starts_with→append (b ∷ text) disconnect_word word in
        inr (
          inl (
            rest,
            e,
            no_prefix (b ∷ text) disconnect_me plain,
            rw (command, plain, word)
                (ap (λ t. leave (s.trim (drop (length disconnect_word) t))) e
                  ∙ ap (λ t. leave (s.trim t)) (drop-append disconnect_word rest)),
          ))
    | inr other ↦ inr (
        inr (
          (λ e. absurd (ground arith)),
          inl (no_prefix (b ∷ text) disconnect_word other),
          rw (plain, other) refl,
        ))
  ]
]
