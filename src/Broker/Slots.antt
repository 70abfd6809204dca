-- ===== src/Broker/Slots.antt =====
-- Which slot an open request gets.
use psmq.Prelude.{
  ℕ, zero, suc, ◌+◌, ◌<◌, ◌≡◌, refl, sym, subst, true, false, List, [], ◌∷◌, some, ◌⊎◌, inl, inr,
  Bool-cases, get_elem?, All, arith,
}
use psmq.Errno.{uchar_max}
use psmq.Broker.State.{Client}
use psmq.Broker.Reply.{is_free, free_client_from}

-- `r` is the first free slot, counted from `fd` on, or UCHAR_MAX where none is free.
abbrev pub FirstFree : ℕ → List Client → ℕ → Type 0
FirstFree fd cs r =
    ((r ≡ uchar_max) × All (λ c. is_free c ≡ false) cs)
    ⊎ ((i : ℕ) × (c : Client) × (r ≡ fd + i)
        × (get_elem? cs i ≡ some c)
        × (is_free c ≡ true)
        × ((j : ℕ) (d : Client) → j < i → get_elem? cs j ≡ some d → is_free d ≡ false))

FirstFree-skip :
    (fd : ℕ) (c : Client) (cs : List Client) (r : ℕ)
    → is_free c ≡ false
    → FirstFree (fd + 1) cs r
    → FirstFree fd (c ∷ cs) r
FirstFree-skip fd c cs r h (inl (e, full)) = inl (e, (h, full))
FirstFree-skip fd c cs r h (inr (i, d, e, there, free, before)) =
    inr (suc i, d, omega arith, there, free, earlier)
  where
    earlier : (j : ℕ) (x : Client) → j < suc i → get_elem? (c ∷ cs) j ≡ some x → is_free x ≡ false
    earlier zero x lt e' = ground (arith, h)
    earlier (suc j) x lt e' = before j x (omega arith) e'

free_none : (fd : ℕ) → free_client_from fd [] ≡ uchar_max
unfolding free_client_from
free_none fd = refl

free_here :
    (fd : ℕ) (c : Client) (cs : List Client) → is_free c ≡ true → free_client_from fd (c ∷ cs) ≡ fd
unfolding free_client_from
free_here fd c cs h = rw h

free_next :
    (fd : ℕ) (c : Client) (cs : List Client)
    → is_free c ≡ false
    → free_client_from fd (c ∷ cs) ≡ free_client_from (fd + 1) cs
unfolding free_client_from
free_next fd c cs h = rw h

free_at :
    (fd : ℕ) (c : Client) (cs : List Client)
    → is_free c ≡ true
    → free_client_from fd (c ∷ cs) ≡ fd + 0
free_at fd c cs h = omega (arith, free_here fd c cs h)

-- The lowest slot that is free; UCHAR_MAX exactly where all are taken.
pub free_client_from-FirstFree :
    (fd : ℕ) (cs : List Client) → FirstFree fd cs (free_client_from fd cs)
free_client_from-FirstFree fd [] = inl (free_none fd, tt)
free_client_from-FirstFree fd (c ∷ cs) = elim (Bool-cases (is_free c)) [
  | inl e ↦ inr (0, c, free_at fd c cs e, refl, e, λ j d lt. absurd (omega arith))
  | inr e ↦
      subst (FirstFree fd (c ∷ cs)) (sym (free_next fd c cs e))
        (FirstFree-skip fd c cs _ e (free_client_from-FirstFree (fd + 1) cs))
]
