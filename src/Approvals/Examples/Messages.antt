-- ===== src/Approvals/Examples/Messages.antt =====
-- Replies to two requests in a chat, and what they are bound to.
use mac_bennet.Prelude.{
  ◌≡◌, ◌↔◌, refl, inr, [], ◌∷◌, codes, same_text, is_word, to_upper, begins_word,
}
use mac_bennet.Approvals.{Decision}
use mac_bennet.Approvals.Codes.{
  affirms, refuses, extract_approval_codes, in_alphabet, code_letters, code_after, scan_codes,
  distinct_texts, has_phrase, phrase_here,
}
use mac_bennet.Approvals.Binding.{
  Outstanding, BindingOutcome, find_code, bound_to, not_bound, bind_found, bind_codes, bind_text,
  bind_message, bind_approval_decision,
}
use mac_bennet.Approvals.Binding.Named.{IsNamed, bind_approval_decision-bound}
use mac_bennet.Approvals.Binding.Reply.{code_of, message, reply, bind_approval_decision-reply}

abbrev card : Outstanding
card = record { id = 0; code = codes "AP-4F2K"; title = codes "Run it" }

abbrev other_card : Outstanding
other_card = record { id = 1; code = codes "AP-LGTM"; title = codes "Ship it" }

-- "yes, approve ap-4f2k" binds to the request, a bare "sounds good" to none.
bind_quoted :
    bind_approval_decision (message (codes "yes, approve ap-4f2k") (card ∷ []))
    ≡ bound_to (message (codes "yes, approve ap-4f2k") (card ∷ [])) card Decision.approve
unfolding bind_approval_decision bind_message bind_text bind_codes bind_found bound_to find_code
    affirms refuses extract_approval_codes in_alphabet code_letters code_after scan_codes
    distinct_texts has_phrase phrase_here same_text is_word to_upper begins_word
bind_quoted = refl

bind_bare :
    (bind_approval_decision (message (codes "Sounds good") (card ∷ []))).outcome
    ≡ BindingOutcome.ambiguous
unfolding bind_approval_decision bind_message bind_text bind_codes not_bound affirms refuses
    extract_approval_codes code_after scan_codes distinct_texts has_phrase phrase_here is_word
    to_upper begins_word
bind_bare = refl

-- A question that names a code is bound as a rejection.
bind_question :
    bind_approval_decision (message (codes "What is AP-4F2K about?") (card ∷ []))
    ≡ bound_to (message (codes "What is AP-4F2K about?") (card ∷ [])) card Decision.reject
unfolding bind_approval_decision bind_message bind_text bind_codes bind_found bound_to find_code
    affirms refuses extract_approval_codes in_alphabet code_letters code_after scan_codes
    distinct_texts has_phrase phrase_here same_text is_word to_upper begins_word
bind_question = refl

-- The code AP-LGTM reads as an affirmation: a question that names it is an approval, and its
-- rejection is ambiguous.
bind_lgtm :
    bind_approval_decision (message (codes "What is AP-LGTM about?") (other_card ∷ []))
    ≡ bound_to
        (message (codes "What is AP-LGTM about?") (other_card ∷ []))
        other_card
        Decision.approve
unfolding bind_approval_decision bind_message bind_text bind_codes bind_found bound_to find_code
    affirms refuses extract_approval_codes in_alphabet code_letters code_after scan_codes
    distinct_texts has_phrase phrase_here same_text is_word to_upper begins_word
bind_lgtm = refl

bind_approval_decision-bound_example :
    (bind_approval_decision (message (codes "What is AP-4F2K about?") (card ∷ []))
      ≡ bound_to (message (codes "What is AP-4F2K about?") (card ∷ [])) card Decision.reject)
    ↔ IsNamed
        (message (codes "What is AP-4F2K about?") (card ∷ []))
        (bound_to (message (codes "What is AP-4F2K about?") (card ∷ [])) card Decision.reject)
unfolding bound_to
bind_approval_decision-bound_example =
    bind_approval_decision-bound (message (codes "What is AP-4F2K about?") (card ∷ []))
      (bound_to (message (codes "What is AP-4F2K about?") (card ∷ [])) card Decision.reject) refl

bind_approval_decision-reply_example :
    bind_approval_decision
      (message (reply Decision.reject (codes "AP-4F2K")) (other_card ∷ card ∷ []))
    ≡ bound_to
        (message (reply Decision.reject (codes "AP-4F2K")) (other_card ∷ card ∷ []))
        card
        Decision.reject
unfolding find_code same_text to_upper affirms has_phrase phrase_here is_word begins_word
    in_alphabet
bind_approval_decision-reply_example =
    bind_approval_decision-reply Decision.reject (codes "AP-4F2K") card (other_card ∷ card ∷ [])
      (code_of b'4' b'F' b'2' b'K' refl refl refl refl) (inr refl) refl
