-- ===== src/Worker/Shutdown/Exits.antt =====
-- With which code a process exits, and what has been done by then.
use high_throughput_transact.Base.{
  ℕ, ◌≡◌, refl, sym, ap, ◌∙◌, ◌⊎◌, inl, inr, String, true, false, Option, none, some, List, [], ◌∷◌,
  ◌++◌, arith, Bool-cases,
}
use mathlib.Core.List.{append-nil, append_assoc}
use high_throughput_transact.Worker.Shutdown.{
  Process, registered, exit, on_signal, settle_next, on_settled, on_error, on_timer, Step,
  signalled, settled, thrown, expired, Steps, here, next,
}

-- The codes that the process exits with, and what code 0 means.
abbrev Sound : List String → Process → Option ℕ → Type 0
Sound steps p none = Unit {0}
Sound steps p (some exit_code) =
    ((exit_code ≡ 0) × (p.completed ≡ steps) × (p.signals ≡ 1)) ⊎ (exit_code ≡ 1)

record Inv (steps : List String) (p : Process) : Type 0 where
  order : p.completed ++ p.remaining ≡ steps
  flag : p.state.shutting_down ≡ p.handling
  quiet : p.handling ≡ false → (p.signals ≡ 0) × (p.completed ≡ []) × (p.exit_code ≡ none)
  single : p.handling ≡ true → p.exit_code ≡ none → p.signals ≡ 1
  armed : p.handling ≡ false → p.timer ≡ none
  sound : Sound steps p p.exit_code

on_signal-Inv :
    {steps : List String} (now grace_ms : ℕ) (p : Process)
    → p.exit_code ≡ none
    → Inv steps p
    → Inv steps (on_signal now grace_ms p)
unfolding on_signal
on_signal-Inv {steps} now grace_ms p e v = elim (Bool-cases p.handling) [
  | inl h ↦ rw h (record {
    order = v.order;
    flag = v.flag ∙ h;
    quiet = λ q. cc;
    armed = λ q. cc;
    single = λ q x. cc;
    sound = inr refl;
  })
  | inr h ↦ rw h (record {
    order = v.order;
    flag = rw (v.flag ∙ h) refl;
    quiet = λ q. cc;
    armed = λ q. cc;
    single = λ q x. let (zero_signals, c, n) = v.quiet h in omega arith;
    sound = rw e tt;
  })
]

failed-Inv :
    {steps : List String} (p : Process)
    → p.exit_code ≡ none
    → p.handling ≡ true
    → Inv steps p
    → Inv steps (exit 1 p)
unfolding exit
failed-Inv p e h v = record {
  order = v.order;
  flag = v.flag;
  quiet = λ q. cc;
  armed = λ q. cc;
  single = λ q x. cc;
  sound = inr refl;
}

settle_next-Inv :
    {steps : List String} (rest : List String) (p : Process)
    → p.remaining ≡ rest
    → p.exit_code ≡ none
    → p.handling ≡ true
    → Inv steps p
    → Inv steps (settle_next rest p)
unfolding settle_next exit
settle_next-Inv [] p r e h v = record {
  order = v.order;
  flag = v.flag;
  quiet = λ q. cc;
  armed = λ q. cc;
  single = λ q x. cc;
  sound = inl (refl, sym (append-nil p.completed) ∙ (rw r at v.order), v.single h e);
}
settle_next-Inv (s ∷ ss) p r e h v = record {
  order = append_assoc p.completed (s ∷ []) ss ∙ (rw r at v.order);
  flag = v.flag;
  quiet = λ q. cc;
  armed = λ q. cc;
  single = v.single;
  sound = rw e tt;
}

Step-Inv :
    {steps : List String} {grace_ms : ℕ} {p q : Process}
    → Step grace_ms p q
    → Inv steps p
    → Inv steps q
unfolding on_settled on_error on_timer
Step-Inv {grace_ms = g} {p} (signalled now e) v = on_signal-Inv now g p e v
Step-Inv {p} (settled e h) v = settle_next-Inv p.remaining p refl e h v
Step-Inv {p} (thrown e h) v = failed-Inv p e h v
Step-Inv {p} (expired now deadline e t late) v = elim (Bool-cases p.handling) [
  | inl h ↦ failed-Inv p e h v
  | inr h ↦ let unset = v.armed h in cc
]

Steps-Inv :
    {steps : List String} {grace_ms : ℕ} {p : Process}
    → Steps grace_ms (registered steps) p
    → Inv steps p
Steps-Inv here = record {
  order = refl;
  flag = refl;
  quiet = λ q. (refl, refl, refl);
  single = λ q x. cc;
  armed = λ q. refl;
  sound = tt;
}
Steps-Inv (next r st) = Step-Inv st (Steps-Inv r)

-- A process exits with code 0 only when every step has completed, in order, and it received one
-- signal; it exits with no other code than 0 and 1. While it has not exited, the completed and the
-- remaining steps are all steps, in order, and no step has completed before the flag of the
-- shutdown is set.
pub exits :
    (steps : List String) (grace_ms : ℕ) {p : Process}
    → Steps grace_ms (registered steps) p
    → ((p.exit_code ≡ none)
        × (p.completed ++ p.remaining ≡ steps)
        × ((p.state.shutting_down ≡ true) ⊎ (p.completed ≡ [])))
      ⊎ ((p.exit_code ≡ some 0) × (p.completed ≡ steps) × (p.signals ≡ 1))
      ⊎ (p.exit_code ≡ some 1)
exits steps grace_ms {p} r = go p.exit_code refl (Steps-Inv r).sound
  where
    flagged : (p.state.shutting_down ≡ true) ⊎ (p.completed ≡ [])
    flagged = elim (Bool-cases p.handling) [
      | inl h ↦ inl ((Steps-Inv r).flag ∙ h)
      | inr h ↦ inr ((Steps-Inv r).quiet h).1
    ]

    go :
        (o : Option ℕ)
        → p.exit_code ≡ o
        → Sound steps p o
        → ((p.exit_code ≡ none)
            × (p.completed ++ p.remaining ≡ steps)
            × ((p.state.shutting_down ≡ true) ⊎ (p.completed ≡ [])))
          ⊎ ((p.exit_code ≡ some 0) × (p.completed ≡ steps) × (p.signals ≡ 1))
          ⊎ (p.exit_code ≡ some 1)
    go none e s = inl (e, (Steps-Inv r).order, flagged)
    go (some n) e (inl (z, c, o)) = inr (inl (e ∙ ap some z, c, o))
    go (some n) e (inr one) = inr (inr (e ∙ ap some one))
