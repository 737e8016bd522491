-- ===== src/Domain/ImportStatus/Moves.antt =====
-- What the transition table of an import promises.
use high_throughput_transact.Base.{◌⊎◌, inl, inr, ◌≡◌, refl, ◌↔◌, true, false, not}
use high_throughput_transact.Domain.ImportStatus.{
  ImportStatus, pending, processing, cancelling, completed, failed, cancelled, is_terminal,
  can_transition, is_cancellable,
}

-- A status is terminal exactly when no transition leaves it, and exactly when it cannot be
-- cancelled.
pub is_terminal_iff :
    (s : ImportStatus)
    → ((is_terminal s ≡ true) ↔ ((t : ImportStatus) → can_transition s t ≡ false))
      × (is_terminal s ≡ not (is_cancellable s))
unfolding is_terminal can_transition is_cancellable
is_terminal_iff s = (is_stuck_iff s, agree s)
  where
    stuck : (s t : ImportStatus) → is_terminal s ≡ true → can_transition s t ≡ false
    stuck completed t h = refl
    stuck failed t h = refl
    stuck cancelled t h = refl
    stuck _ t h = cc

    moves :
        (s : ImportStatus)
        → ((t : ImportStatus) → can_transition s t ≡ false)
        → is_terminal s ≡ true
    moves pending h = cc (h failed)
    moves processing h = cc (h failed)
    moves cancelling h = cc (h failed)
    moves _ h = refl

    is_stuck_iff :
        (s : ImportStatus)
        → (is_terminal s ≡ true) ↔ ((t : ImportStatus) → can_transition s t ≡ false)
    is_stuck_iff s = ((λ h t. stuck s t h), moves s)

    agree : (s : ImportStatus) → is_terminal s ≡ not (is_cancellable s)
    agree pending = refl
    agree _ = refl

-- A chain of allowed transitions.
pub data Chain : ImportStatus → ImportStatus → Type 0 where
  here : {s : ImportStatus} → Chain s s
  move : {s t u : ImportStatus} → can_transition s t ≡ true → Chain t u → Chain s u

-- A status is terminal and no chain of allowed transitions leaves it, or it reaches completed and
-- failed by such chains.
pub Chain-ends :
    (s : ImportStatus)
    → ((is_terminal s ≡ true) × ((t : ImportStatus) → Chain s t → s ≡ t))
      ⊎ (Chain s completed × Chain s failed)
unfolding is_terminal can_transition
Chain-ends s = ends s
  where
    stays : {s t : ImportStatus} → is_terminal s ≡ true → Chain s t → s ≡ t
    stays h here = refl
    stays {s} h (move {t = m} e p) = let b = (is_terminal_iff s).0.0 h m in cc

    ends :
        (s : ImportStatus)
        → ((is_terminal s ≡ true) × ((t : ImportStatus) → Chain s t → s ≡ t))
          ⊎ (Chain s completed × Chain s failed)
    ends pending =
        inr
          (move {t = processing} refl (move {t = completed} refl here), move {t = failed} refl here)
    ends processing = inr (move {t = completed} refl here, move {t = failed} refl here)
    ends cancelling = inr (move {t = completed} refl here, move {t = failed} refl here)
    ends completed = inl (refl, λ t p. stays refl p)
    ends failed = inl (refl, λ t p. stays refl p)
    ends cancelled = inl (refl, λ t p. stays refl p)
