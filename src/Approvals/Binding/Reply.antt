-- ===== src/Approvals/Binding/Reply.antt =====
-- The reply that Mac asks for, a decision and a code, read back.
use mac_bennet.Prelude.{
  ℕ, inl, inr, suc, ◌≡◌, ◌⊎◌, refl, ap, Bool, true, false, List, [], ◌∷◌, ◌++◌, none, some, any,
  arith, ◌&&◌, codes, is_word, to_upper, leb, length, ◌==◌, ==_iff, begins_word,
}
use mac_bennet.Runs.Db.{Text}
use mac_bennet.Approvals.{Decision}
use mac_bennet.Approvals.Codes.{
  affirms, refuses, extract_approval_codes, in_alphabet, code_alphabet, code_letters, code_after,
  scan_codes, distinct_texts, has_phrase, phrase_here, refuse_phrases,
}
use mac_bennet.Approvals.Binding.Named.{by_code, Says, bind_approval_decision-bound}
use mac_bennet.Approvals.Binding.{
  BindInput, Outstanding, find_code, bound_to, bind_approval_decision,
}

-- What a code is: the prefix and four letters of the alphabet.
pub data IsCode : Text → Type 0 where
  code_of :
      (a b c d : ℕ)
      → in_alphabet a ≡ true
      → in_alphabet b ≡ true
      → in_alphabet c ≡ true
      → in_alphabet d ≡ true
      → IsCode (codes "AP-" ++ (a ∷ b ∷ c ∷ d ∷ []))

abbrev all : (ℕ → Bool) → Text → Bool
all p [] = true
all p (x ∷ xs) = p x && all p xs

any-all :
    (p : ℕ → Bool) (c : ℕ) (xs : Text) → all p xs ≡ true → any (λ x. x == c) xs ≡ true → p c ≡ true
any-all p c [] h m = cc
any-all p c (x ∷ xs) h m = ground (arith, any-all p c xs)

in_alphabet_word : (c : ℕ) → in_alphabet c ≡ true → is_word c ≡ true
unfolding in_alphabet is_word
in_alphabet_word c h = any-all is_word c code_alphabet refl h

in_alphabet_upper : (c : ℕ) → in_alphabet c ≡ true → to_upper c ≡ c
unfolding in_alphabet to_upper
in_alphabet_upper c h =
    (==_iff (to_upper c) c).0 (any-all (λ x. to_upper x == x) c code_alphabet refl h)

code_letters-cons :
    (n x : ℕ) (t letters : Text)
    → in_alphabet x ≡ true
    → code_letters n t ≡ some letters
    → code_letters (suc n) (x ∷ t) ≡ some (x ∷ letters)
unfolding code_letters
code_letters-cons n x t letters h e = rw (in_alphabet_upper x h, h, e, in_alphabet_upper x h) refl

code_letters_all :
    (a b c d : ℕ)
    → in_alphabet a ≡ true
    → in_alphabet b ≡ true
    → in_alphabet c ≡ true
    → in_alphabet d ≡ true
    → code_letters 4 (a ∷ b ∷ c ∷ d ∷ []) ≡ some (a ∷ b ∷ c ∷ d ∷ [])
unfolding code_letters begins_word
code_letters_all a b c d ha hb hc hd =
    let empty : code_letters 0 [] ≡ some [] = refl in
    code_letters-cons 3 a (b ∷ c ∷ d ∷ []) _ ha (
      code_letters-cons 2 b (c ∷ d ∷ []) _ hb
        (code_letters-cons 1 c (d ∷ []) _ hc (code_letters-cons 0 d [] [] hd empty)))

-- A decision in a word that the expressions know, and the code.
unfoldable pub reply : Decision → Text → Text
reply Decision.approve code = codes "approve " ++ code
reply Decision.reject code = codes "reject " ++ code

scan_codes-found :
    (c : ℕ) (t letters : Text)
    → code_after (codes "AP-") (c ∷ t) ≡ some letters
    → scan_codes false 0 (c ∷ t) ≡ (codes "AP-" ++ letters) ∷ scan_codes (is_word c) 6 t
unfolding scan_codes
scan_codes-found c t letters e = rw (e, scan_codes) refl

scan_codes-IsCode : (code : Text) → IsCode code → scan_codes false 0 code ≡ code ∷ []
unfolding code_after to_upper scan_codes
scan_codes-IsCode _ (code_of a b c d ha hb hc hd) =
    scan_codes-found b'A' (b'P' ∷ b'-' ∷ a ∷ b ∷ c ∷ d ∷ []) _
      (code_letters_all a b c d ha hb hc hd)

extract_reply :
    (d : Decision) (code : Text) → IsCode code → extract_approval_codes (reply d code) ≡ code ∷ []
unfolding extract_approval_codes scan_codes distinct_texts code_after reply begins_word is_word
    to_upper
extract_reply Decision.approve _ (code_of a b c d ha hb hc hd) =
    ap (distinct_texts []) (scan_codes-IsCode _ (code_of a b c d ha hb hc hd))
extract_reply Decision.reject _ (code_of a b c d ha hb hc hd) =
    ap (distinct_texts []) (scan_codes-IsCode _ (code_of a b c d ha hb hc hd))

phrase_here-fits :
    (p t : Text)
    → all in_alphabet t ≡ true
    → phrase_here p t ≡ true
    → all in_alphabet p && leb (length p) (length t) ≡ true
unfolding phrase_here
phrase_here-fits [] t ht h = ground arith
phrase_here-fits (p ∷ ps) [] ht h = absurd (cc)
phrase_here-fits (p ∷ ps) (c ∷ t) ht h = ground (arith, in_alphabet_upper c, phrase_here-fits ps t)

any-phrase_here :
    (phrases : List Text) (t : Text)
    → all in_alphabet t ≡ true
    → any (λ p. all in_alphabet p && leb (length p) (length t)) phrases ≡ false
    → any (λ p. phrase_here p t) phrases ≡ false
any-phrase_here [] t ht h = refl
any-phrase_here (p ∷ ps) t ht h = ground (arith, phrase_here-fits p t ht, any-phrase_here ps t ht)

-- Between the words of a code there is no place for a phrase but before its four letters.
has_phrase-code :
    (phrases : List Text) (a b c d : ℕ)
    → in_alphabet a ≡ true
    → in_alphabet b ≡ true
    → in_alphabet c ≡ true
    → any (λ p. phrase_here p (a ∷ b ∷ c ∷ d ∷ [])) phrases ≡ false
    → has_phrase phrases false (a ∷ b ∷ c ∷ d ∷ []) ≡ false
unfolding has_phrase
has_phrase-code phrases a b c d ha hb hc h =
    rw (in_alphabet_word a ha, in_alphabet_word b hb, in_alphabet_word c hc, h) refl

refuses_approval : (code : Text) → IsCode code → refuses (reply Decision.approve code) ≡ false
unfolding refuses has_phrase reply is_word to_upper begins_word phrase_here
refuses_approval _ (code_of a b c d ha hb hc hd) = has_phrase-code refuse_phrases a b c d ha hb hc (
    any-phrase_here refuse_phrases (a ∷ b ∷ c ∷ d ∷ []) (rw (ha, hb, hc, hd) refl)
      (unfold in_alphabet in refl))

affirms_approval : (code : Text) → affirms (reply Decision.approve code) ≡ true
unfolding affirms has_phrase reply is_word to_upper begins_word phrase_here
affirms_approval code = refl

-- The code has no word that reads as an affirmation on its own, as AP-LGTM and AP-YEAH do.
affirms_rejection :
    (code : Text)
    → IsCode code
    → affirms code ≡ false
    → affirms (reply Decision.reject code) ≡ false
unfolding affirms has_phrase reply is_word to_upper begins_word phrase_here
affirms_rejection _ (code_of a b c d ha hb hc hd) h = h

-- A message as it comes from a chat window without a card.
abbrev pub message : Text → List Outstanding → BindInput
message text pending = record {
  text = text;
  pending = pending;
  explicit_request_id = none;
  explicit_decision = none;
}

-- A reply that names a decision and the code of a request is read back as that decision on that
-- request: for every code of the alphabet whose letters do not read as an affirmation themselves
-- (or if the decision is an approval), and every list of outstanding requests in which `p` is the
-- first with that code, the text "approve <code>" or "reject <code>", on a message without a
-- control, binds to `p` with the decision.
pub bind_approval_decision-reply :
    (d : Decision) (code : Text) (p : Outstanding) (pending : List Outstanding)
    → IsCode code
    → (d ≡ Decision.approve) ⊎ (affirms code ≡ false)
    → find_code code pending ≡ some p
    → bind_approval_decision (message (reply d code) pending)
      ≡ bound_to (message (reply d code) pending) p d
unfolding bound_to
bind_approval_decision-reply d code p pending k s f =
    (bind_approval_decision-bound (message (reply d code) pending)
        (bound_to (message (reply d code) pending) p d) refl).1
      (by_code code p d refl (extract_reply d code k) f (says d s))
  where
    says :
        (d : Decision)
        → (d ≡ Decision.approve) ⊎ (affirms code ≡ false)
        → Says (message (reply d code) pending) d
    says Decision.approve s = (affirms_approval code, refuses_approval code k)
    says Decision.reject (inl e) = absurd (cc)
    says Decision.reject (inr e) = affirms_rejection code k e
