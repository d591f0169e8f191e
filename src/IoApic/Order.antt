-- ===== src/IoApic/Order.antt =====
-- The requests that wait reach the hypervisor in order.
use node_vmm.Prelude.{
  suc, ◌≡◌, refl, ap, ◌∙◌, Bool, true, false, not, ◌&&◌, ◌||◌, arith, if◌then◌else◌, Bool-cases,
  inl, inr, List, [], ◌∷◌,
}
use node_vmm.IoApic.{IoApic, Control, drain, drain_pending}

abbrev pub is_nil : {A : Type 0} → List A → Bool
is_nil [] = true
is_nil (x ∷ xs) = false

module _ {P : Type 0} (request_interrupt : Control → P → Bool × P) where
  -- What the hypervisor may see: requests from the front of the queue, one after the other, up to
  -- the first that it refuses, which stays at the front.
  pub data Delivers : List Control → P → List Control → P → Type 0 where
    finished : (p : P) → Delivers [] p [] p
    refused :
        (control : Control) (rest : List Control) (p p' : P)
        → request_interrupt control p ≡ (false, p')
        → Delivers (control ∷ rest) p (control ∷ rest) p'
    sent :
        (control : Control) (queue rest : List Control) (p p' p'' : P)
        → request_interrupt control p ≡ (true, p')
        → Delivers queue p' rest p''
        → Delivers (control ∷ queue) p rest p''

  drain-Delivers :
      (queue : List Control) (delivered : Bool) (p : P)
      → Delivers queue p
          (drain request_interrupt queue delivered p).0
          (drain request_interrupt queue delivered p).2
  unfolding drain
  drain-Delivers [] delivered p = finished p
  drain-Delivers (control ∷ queue) delivered p = elim (Bool-cases (request_interrupt control p).0) [
    | inl e ↦
        rw (drain, e)
          (sent control queue _ p (request_interrupt control p).1 _
            (ap (λ b. (b, (request_interrupt control p).1)) e)
            (drain-Delivers queue true (request_interrupt control p).1))
    | inr e ↦
        rw (drain, e)
          (refused control queue p (request_interrupt control p).1
            (ap (λ b. (b, (request_interrupt control p).1)) e))
  ]

  drain-wakes :
      (queue : List Control) (delivered : Bool) (p : P)
      → (drain request_interrupt queue delivered p).1 ≡ (
          is_nil (drain request_interrupt queue delivered p).0 && (delivered || not (is_nil queue)))
  unfolding drain
  drain-wakes [] true p = refl
  drain-wakes [] false p = refl
  drain-wakes (control ∷ queue) delivered p = elim (Bool-cases (request_interrupt control p).0) [
    | inl e ↦ rw (drain, e) (drain-wakes queue true (request_interrupt control p).1 ∙ ground arith)
    | inr e ↦ rw (drain, e) refl
  ]

  -- `drain_pending` hands the requests that wait to the hypervisor in order, each once, up to the
  -- first that is refused, which stays the next one. The waker is called, once, exactly where
  -- requests waited and none is left.
  pub drain_pending-Delivers :
      (apic : IoApic) (p : P)
      → let apic' = (drain_pending request_interrupt apic p).0 in
        Delivers apic.pending p apic'.pending (drain_pending request_interrupt apic p).1
        × (apic'.woken ≡ (
            if is_nil apic'.pending && not (is_nil apic.pending)
            then suc apic.woken
            else apic.woken))
  unfolding drain_pending
  drain_pending-Delivers apic p = (
    drain-Delivers apic.pending false p,
    ap (λ (b : Bool). if b then suc apic.woken else apic.woken) (drain-wakes apic.pending false p),
  )
