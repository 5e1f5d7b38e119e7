-- ===== src/Approvals/Codes.antt =====
-- The codes that a person quotes, and the regular expressions over a message, of
-- packages/protocol/src/approval-requests.ts. An expression of this file is a choice between
-- literal phrases, between two word boundaries and without regard to case; each is a list of
-- phrases in upper case.
use mac_bennet.Prelude.{
  ℕ, zero, suc, Bool, false, not, ◌&&◌, ◌||◌, List, [], ◌∷◌, ◌++◌, Option, none, some, ◌==◌,
  if◌then◌else◌, any, codes, same_text, is_word, to_upper, begins_word,
}
use mac_bennet.Runs.Db.{Text}

-- APPROVAL_CODE_ALPHABET, APPROVAL_CODE_LENGTH and APPROVAL_CODE_PREFIX.
abbrev pub code_alphabet : Text
code_alphabet = codes "ABCDEFGHJKLMNPQRSTUVWXYZ23456789"

abbrev pub code_length : ℕ
code_length = 4

abbrev pub code_prefix : Text
code_prefix = codes "AP-"

unfoldable pub in_alphabet : ℕ → Bool
in_alphabet c = any (λ x. x == c) code_alphabet

-- `[ALPHABET]{n}\b`, with the letters in upper case.
unfoldable pub code_letters : ℕ → Text → Option Text
code_letters zero t = if begins_word t then none else some []
code_letters (suc n) [] = none
code_letters (suc n) (c ∷ t) =
    if in_alphabet (to_upper c)
    then (elim (code_letters n t) [ none ↦ none | some letters ↦ some (to_upper c ∷ letters) ])
    else none

-- The rest of the expression after a prefix.
unfoldable pub code_after : Text → Text → Option Text
code_after [] t = code_letters code_length t
code_after (p ∷ ps) [] = none
code_after (p ∷ ps) (c ∷ t) = if to_upper c == p then code_after ps t else none

-- Every match of `approvalCodePattern`, left to right. The Boolean is whether the code unit before
-- is a word character; the number counts the code units of a match that are still to be passed.
unfoldable pub scan_codes : Bool → ℕ → Text → List Text
scan_codes prev n [] = []
scan_codes prev (suc n) (c ∷ t) = scan_codes (is_word c) n t
scan_codes prev zero (c ∷ t) = elim (if prev then none else code_after code_prefix (c ∷ t)) [
  | none ↦ scan_codes (is_word c) 0 t
  | some letters ↦ (code_prefix ++ letters) ∷ scan_codes (is_word c) 6 t
]

-- A set in order of insertion.
unfoldable pub distinct_texts : List Text → List Text → List Text
distinct_texts found [] = found
distinct_texts found (s ∷ rest) =
    distinct_texts (if any (same_text s) found then found else found ++ (s ∷ [])) rest

unfoldable pub extract_approval_codes : Text → List Text
extract_approval_codes text = distinct_texts [] (scan_codes false 0 text)

-- A phrase and the word boundary after it.
unfoldable pub phrase_here : Text → Text → Bool
phrase_here [] t = not (begins_word t)
phrase_here (p ∷ ps) [] = false
phrase_here (p ∷ ps) (c ∷ t) = to_upper c == p && phrase_here ps t

-- `/\b(...)\b/i.test(text)`
unfoldable pub has_phrase : List Text → Bool → Text → Bool
has_phrase phrases prev [] = false
has_phrase phrases prev (c ∷ t) =
    (not prev && any (λ p. phrase_here p (c ∷ t)) phrases) || has_phrase phrases (is_word c) t

-- AFFIRM
abbrev pub affirm_phrases : List Text
affirm_phrases =
    codes "APPROVE"
    ∷ codes "APPROVED"
    ∷ codes "APPROVAL"
    ∷ codes "YES"
    ∷ codes "YEP"
    ∷ codes "YEAH"
    ∷ codes "OK"
    ∷ codes "OKAY"
    ∷ codes "GO AHEAD"
    ∷ codes "PROCEED"
    ∷ codes "DO IT"
    ∷ codes "SOUNDS GOOD"
    ∷ codes "LGTM"
    ∷ codes "SHIP IT"
    ∷ codes "AGREED"
    ∷ codes "FINE"
    ∷ codes "PLEASE DO"
    ∷ []

-- REFUSE
abbrev pub refuse_phrases : List Text
refuse_phrases =
    codes "REJECT"
    ∷ codes "REJECTED"
    ∷ codes "NO"
    ∷ codes "NOPE"
    ∷ codes "DONT"
    ∷ codes "DON'T"
    ∷ codes "DO NOT"
    ∷ codes "STOP"
    ∷ codes "HOLD OFF"
    ∷ codes "CANCEL"
    ∷ codes "DECLINE"
    ∷ codes "DECLINED"
    ∷ codes "NOT YET"
    ∷ codes "WAIT"
    ∷ []

unfoldable pub affirms : Text → Bool
affirms text = has_phrase affirm_phrases false text

unfoldable pub refuses : Text → Bool
refuses text = has_phrase refuse_phrases false text
