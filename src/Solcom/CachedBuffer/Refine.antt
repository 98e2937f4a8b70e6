-- ===== src/Solcom/CachedBuffer/Refine.antt =====
-- The histories of a CachedBuffer against those of the bounded queue.
use mathlib.Core.Option
use cpp_linux_learn.Common.{
  ℕ, ◌≡◌, inl, inr, refl, ap, sym, Option-cases, ◌∙◌, none, some, List, [], ◌∷◌,
}
use cpp_linux_learn.Solcom.CachedBuffer.{CachedBuffer}
use cpp_linux_learn.Solcom.CachedBuffer.Positions.{IsValid}
use cpp_linux_learn.Solcom.CachedBuffer.Fifo.{
  enqueue, dequeue, contents, post, take_front, post_refines, post-IsValid, take_front_refines,
  take_front-IsValid,
}

-- The calls of the two threads, in the order in which they take place.
pub data Call {ℓ} (A : Type ℓ) : Type ℓ where
  posts : A → Call A
  takes : Call A

-- What each call shows: whether it succeeded, and the element taken.
pub data Reply {ℓ} (A : Type ℓ) : Type ℓ where
  accepted refused nothing : Reply A
  got : A → Reply A

module _ {ℓ} {A : Type ℓ} (d : A) where
  unfoldable pub run : CachedBuffer A → List (Call A) → List (Reply A)
  run b [] = []
  run b (posts x ∷ calls) = elim (post d x b) [
    | none ↦ refused ∷ run b calls
    | some c ↦ accepted ∷ run c calls
  ]
  run b (takes ∷ calls) = elim (take_front d b) [
    | none ↦ nothing ∷ run b calls
    | some (x, c) ↦ got x ∷ run c calls
  ]

module _ {ℓ} {A : Type ℓ} (limit : ℕ) where
  unfoldable pub run_queue : List A → List (Call A) → List (Reply A)
  run_queue q [] = []
  run_queue q (posts x ∷ calls) = elim (enqueue limit x q) [
    | none ↦ refused ∷ run_queue q calls
    | some r ↦ accepted ∷ run_queue r calls
  ]
  run_queue q (takes ∷ calls) = elim (dequeue q) [
    | none ↦ nothing ∷ run_queue q calls
    | some (x, r) ↦ got x ∷ run_queue r calls
  ]

module _ {ℓ} {A : Type ℓ} (d : A) where
  -- No sequence of posts and takes tells a valid buffer from the bounded queue of what waits in it.
  pub run_refines :
      (calls : List (Call A)) (b : CachedBuffer A)
      → IsValid b
      → run d b calls ≡ run_queue b.capacity (contents d b) calls
  unfolding run run_queue
  run_refines [] b v = refl
  run_refines (posts x ∷ calls) b v = elim (Option-cases (post d x b)) [
    | inl e ↦
        rw (e, run)
          (rw (sym (post_refines d x v) ∙ ap (Option.map (contents d)) e, run_queue)
            (ap (◌∷◌ refused) (run_refines calls b v)))
    | inr (c, e) ↦
        let (w, same_cap) = post-IsValid d x v e in
        rw (e, run)
          (rw (sym (post_refines d x v) ∙ ap (Option.map (contents d)) e, run_queue)
            (ap (◌∷◌ accepted)
              (run_refines calls c w ∙ ap (λ n. run_queue n (contents d c) calls) same_cap)))
  ]
  run_refines (takes ∷ calls) b v = elim (Option-cases (take_front d b)) [
    | inl e ↦
        rw (e, run)
          (rw
            (
              sym (take_front_refines d v) ∙ ap (Option.map (λ r. (r.0, contents d r.1))) e,
              run_queue,
            )
            (ap (◌∷◌ nothing) (run_refines calls b v)))
    | inr ((x, c), e) ↦
        let (w, same_cap) = take_front-IsValid d x v e in
        rw (e, run)
          (rw
            (
              sym (take_front_refines d v) ∙ ap (Option.map (λ r. (r.0, contents d r.1))) e,
              run_queue,
            )
            (ap (◌∷◌ (got x))
              (run_refines calls c w ∙ ap (λ n. run_queue n (contents d c) calls) same_cap)))
  ]
