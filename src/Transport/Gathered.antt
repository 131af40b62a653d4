-- ===== src/Transport/Gathered.antt =====
-- The chunks of a stream that src/network/node.ts reads within a budget.
use dsh_carbonclub.Base.{
  ℕ, ◌≤◌, ◌≡◌, refl, sym, ap, ◌∙◌, subst, false, some, List, [], ◌∷◌, ◌++◌, length, length-append,
  append_nil, append_assoc, ltb, arith, Bool-cases, inl, inr, some_injective, none_some,
}
use dsh_carbonclub.Codec.{Bytes}
use dsh_carbonclub.Transport.Sync.{gather}

-- All chunks in one.
abbrev pub joined : List Bytes → Bytes
joined [] = []
joined (chunk ∷ chunks) = chunk ++ joined chunks

pub gather-joined :
    (budget : ℕ) (got : Bytes) (chunks : List Bytes)
    → length (got ++ joined chunks) ≤ budget
    → gather budget got chunks ≡ some (got ++ joined chunks)
unfolding gather
gather-joined budget got [] h = ap some (sym (append_nil got))
gather-joined budget got (chunk ∷ chunks) h =
    let assoc = append_assoc got chunk (joined chunks) in
    let fits : ltb budget (length (got ++ chunk)) ≡ false =
      ground (arith, h, ap length assoc, length-append (got ++ chunk) (joined chunks)) in
    rw fits (
      gather-joined budget (got ++ chunk) chunks
        (subst (λ (b : Bytes). length b ≤ budget) (sym assoc) h)
      ∙ ap some assoc)

pub gather-eq-some :
    (budget : ℕ) (got : Bytes) (chunks : List Bytes) (contents : Bytes)
    → gather budget got chunks ≡ some contents
    → got ++ joined chunks ≡ contents
unfolding gather
gather-eq-some budget got [] contents h = append_nil got ∙ some_injective h
gather-eq-some budget got (chunk ∷ chunks) contents h =
    elim (Bool-cases (ltb budget (length (got ++ chunk)))) [
      | inl over ↦ none_some {o = gather budget got (chunk ∷ chunks)} (rw (over, gather) refl) h
      | inr fits ↦
          sym (append_assoc got chunk (joined chunks))
          ∙ gather-eq-some budget (got ++ chunk) chunks contents (sym (rw (fits, gather) refl) ∙ h)
    ]
