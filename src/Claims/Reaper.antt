-- ===== src/Claims/Reaper.antt =====
-- When a silent claim ends (provider.py, lines 80 to 86 and 113 to 145): the class looks at the deadline
-- only where a method is called, with `expire`.
use yession.Prelude.{ℕ, ◌≤◌, ◌≡◌, refl, true, some, Text, arith, ap, ◌∙◌, sym, subst, inl, inr}
use yession.Claims.{
  Claim, Claims, is_stale, drop_claim, expire_claim, expire, touch, current, acquire, take_claim,
  release, release_claim, holder_of, see,
}
use yession.Claims.Laws.{is_stale_iff, expire-cases}

-- What is stale stays so while no stream is opened.
is_stale-later :
    (r t : ℕ) (c : Claims) (k : Claim) → r ≤ t → is_stale r c k ≡ true → is_stale t c k ≡ true
is_stale-later r t c k le stale =
    (is_stale_iff t c k).1 (omega (arith, (is_stale_iff r c k).0 stale, le))

module _ {ℓ} {S : Type ℓ} (on_release : S → S) where
  expire-stale :
      (t : ℕ) (w : Claims × S) (k : Claim)
      → w.0.claim ≡ some k
      → is_stale t w.0 k ≡ true
      → expire on_release t w ≡ drop_claim on_release w
  unfolding expire expire_claim
  expire-stale t w k e stale =
      subst (λ o. expire_claim on_release t o w ≡ drop_claim on_release w) (sym e)
        (ground (arith, stale))

  expire-dropped :
      (t : ℕ) (w : Claims × S)
      → expire on_release t (drop_claim on_release w) ≡ drop_claim on_release w
  unfolding expire expire_claim drop_claim
  expire-dropped t (c, s) = refl

  pub expire-expire :
      (r t : ℕ) (w : Claims × S)
      → r ≤ t
      → expire on_release t (expire on_release r w) ≡ expire on_release t w
  expire-expire r t w le = elim (expire-cases on_release r w) [
    | inl (e, _) ↦ ap (expire on_release t) e
    | inr (k, e, stale, dropped) ↦
        ap (expire on_release t) dropped
        ∙ expire-dropped t w
        ∙ sym (expire-stale t w k e (is_stale-later r t w.0 k le stale))
  ]

  -- An earlier look at the deadline makes no difference to `acquire`, `release`, `holder` and `touch`:
  -- had `expire` run on the state at an earlier reading of the clock, with nothing in between, each of
  -- these four would have given the same answer and left the same claims and the same state behind the
  -- callback.
  pub methods-expire :
      (r t later : ℕ) (h : Text) (w : Claims × S)
      → r ≤ t
      → (acquire on_release t later h (expire on_release r w) ≡ acquire on_release t later h w)
        × (release on_release t h (expire on_release r w) ≡ release on_release t h w)
        × (current on_release t (expire on_release r w) ≡ current on_release t w)
        × (touch on_release t later h (expire on_release r w) ≡ touch on_release t later h w)
  unfolding acquire release current touch
  methods-expire r t later h w le =
      let same = expire-expire r t w le in
      (
        ap (λ v. take_claim on_release later h v.0.claim v) same,
        ap (λ v. release_claim on_release h v.0.claim v) same,
        ap (λ v. (holder_of v.0.claim, v)) same,
        ap (λ v. (record v.0 { claim = see later h v.0.claim }, v.1)) same,
      )
