-- ===== src/Correlation/Windows.antt =====
-- The groups of internal/ai/alertcorrelation/engine.go.
use ops_captain.Base.{
  ℕ, ◌+◌, ◌*◌, ◌≤◌, ◌<◌, ◌≡◌, refl, ap, ◌∙◌, inl, inr, Bool, List, [], ◌∷◌, ◌++◌, arith, ltb,
  if◌then◌else◌, All, All-snoc, All-map, Bool-cases,
}
use ops_captain.Correlation.Engine.{
  SimplifiedAlert, AlertGroup, Engine, Outside, minute, open_group, close_group, join_group,
  group_from, group_by_time_window, extract_services,
}
use mathlib.Core.List.{append_assoc}

-- The alerts of all groups, in order.
unfoldable pub alerts_of : List AlertGroup → List SimplifiedAlert
alerts_of [] = []
alerts_of (g ∷ gs) = g.alerts ++ alerts_of gs

module _ {F : Type 0} (o : Outside F) (e : Engine F) where
  -- Each alert is before the end of the window after `end`, which grows with the alerts up to `last`.
  abbrev pub Spans : ℕ → List SimplifiedAlert → ℕ → Type 0
  Spans end [] last = end ≡ last
  Spans end (a ∷ alerts) last =
      (a.active_at < end + e.time_window_minutes * minute)
      × Spans (if ltb end a.active_at then a.active_at else end) alerts last

  -- A group starts at its first alert, and ends a window later or at its last alert.
  abbrev pub StartsAt : AlertGroup → List SimplifiedAlert → Type 0
  StartsAt g [] = ⊥
  StartsAt g (a ∷ alerts) =
      (g.window_start ≡ a.active_at)
      × Spans (a.active_at + e.time_window_minutes * minute) alerts g.window_end

  abbrev pub IsJoined : AlertGroup → Type 0
  IsJoined g = StartsAt g g.alerts

  Spans-snoc :
      (end : ℕ) (alerts : List SimplifiedAlert) (last : ℕ) (a : SimplifiedAlert)
      → Spans end alerts last
      → a.active_at < last + e.time_window_minutes * minute
      → Spans end (alerts ++ a ∷ []) (if ltb last a.active_at then a.active_at else last)
  Spans-snoc end [] last a h before =
      (omega arith, ap (λ n. if ltb n a.active_at then a.active_at else n) h)
  Spans-snoc end (x ∷ alerts) last a h before =
      (h.0, Spans-snoc (if ltb end x.active_at then x.active_at else end) alerts last a h.1 before)

  StartsAt-snoc :
      (g : AlertGroup) (alerts : List SimplifiedAlert) (a : SimplifiedAlert)
      → StartsAt g alerts
      → a.active_at < g.window_end + e.time_window_minutes * minute
      → StartsAt (join_group o e g a) (alerts ++ a ∷ [])
  unfolding join_group
  StartsAt-snoc g [] a h before = absurd h
  StartsAt-snoc g (x ∷ alerts) a h before = (
    h.0,
    Spans-snoc (x.active_at + e.time_window_minutes * minute) alerts g.window_end a h.1 before,
  )

  -- A group with its window: no alert is after the end, the end is at least one window after the start.
  pub record IsGroup (g : AlertGroup) : Type 0 where
    pub within : All (λ a. a.active_at ≤ g.window_end) g.alerts
    pub lasting : g.window_start + e.time_window_minutes * minute ≤ g.window_end
    pub joined : IsJoined g
    pub served : g.services ≡ extract_services o e g.alerts

  -- The first group starts at `bound` or later, and each other at least one window after the end of the
  -- group before it.
  abbrev pub FollowEach : ℕ → List AlertGroup → Type 0
  FollowEach bound [] = Unit
  FollowEach bound (g ∷ gs) =
      (bound ≤ g.window_start) × FollowEach (g.window_end + e.time_window_minutes * minute) gs

  -- The alert is before the end of the window after the group's.
  abbrev joins : AlertGroup → SimplifiedAlert → Bool
  joins g a = ltb a.active_at (g.window_end + e.time_window_minutes * minute)

  group_from-alerts :
      (g : AlertGroup) (alerts : List SimplifiedAlert)
      → alerts_of (group_from o e g alerts) ≡ g.alerts ++ alerts
  unfolding group_from alerts_of close_group join_group open_group
  group_from-alerts g [] = refl
  group_from-alerts g (a ∷ alerts) = elim (Bool-cases (joins g a)) [
    | inl h ↦
        rw (h, group_from)
          (group_from-alerts (join_group o e g a) alerts ∙ append_assoc g.alerts (a ∷ []) alerts)
    | inr h ↦ rw (h, group_from) (ap (◌++◌ g.alerts) (group_from-alerts (open_group o e a) alerts))
  ]

  group_from-IsGroup :
      (g : AlertGroup) (alerts : List SimplifiedAlert)
      → All (λ a. a.active_at ≤ g.window_end) g.alerts
      → g.window_start + e.time_window_minutes * minute ≤ g.window_end
      → IsJoined g
      → All IsGroup (group_from o e g alerts)
  unfolding group_from close_group join_group open_group
  group_from-IsGroup g [] within lasting joined =
      (record { within = within; lasting = lasting; joined = joined; served = refl }, tt)
  group_from-IsGroup g (a ∷ alerts) within lasting joined = elim (Bool-cases (joins g a)) [
    | inl h ↦
        rw (h, group_from)
          (group_from-IsGroup (join_group o e g a) alerts
            (All-snoc (λ x. x.active_at ≤ (join_group o e g a).window_end) g.alerts a
              (All-map (λ x. x.active_at ≤ g.window_end)
                (λ x. x.active_at ≤ (join_group o e g a).window_end) g.alerts (λ x le. ground arith)
                within)
              (ground arith))
            (ground arith) (StartsAt-snoc g g.alerts a joined (ground arith)))
    | inr h ↦
        rw (h, group_from)
          (
            record { within = within; lasting = lasting; joined = joined; served = refl },
            group_from-IsGroup (open_group o e a) alerts (omega arith, tt) (omega arith)
                (refl, refl),
          )
  ]

  group_from-FollowEach :
      (bound : ℕ) (g : AlertGroup) (alerts : List SimplifiedAlert)
      → bound ≤ g.window_start
      → FollowEach bound (group_from o e g alerts)
  unfolding group_from close_group join_group open_group
  group_from-FollowEach bound g [] h = (h, tt)
  group_from-FollowEach bound g (a ∷ alerts) h = elim (Bool-cases (joins g a)) [
    | inl j ↦ rw (j, group_from) (group_from-FollowEach bound (join_group o e g a) alerts h)
    | inr j ↦
        rw (j, group_from)
          (
            h,
            group_from-FollowEach (g.window_end + e.time_window_minutes * minute) (open_group o e a)
                alerts (ground arith),
          )
  ]

  -- Grouping loses, repeats and reorders no alert: the groups' alerts, one after another, are the
  -- alerts. A group starts at its first alert; each further one is within one window of the group's end
  -- so far, which is one window after the start and grows to the alert's time where that is later, up to
  -- the group's end. A group names the services of its alerts, and starts at least one window after the
  -- end of the one before it.
  pub group_by_time_window-IsGroup :
      (alerts : List SimplifiedAlert)
      → (alerts_of (group_by_time_window o e alerts) ≡ alerts)
        × All IsGroup (group_by_time_window o e alerts)
        × FollowEach 0 (group_by_time_window o e alerts)
  unfolding group_by_time_window open_group alerts_of
  group_by_time_window-IsGroup [] = (refl, tt, tt)
  group_by_time_window-IsGroup (a ∷ alerts) = (
    group_from-alerts (open_group o e a) alerts,
    group_from-IsGroup (open_group o e a) alerts (omega arith, tt) (omega arith) (refl, refl),
    group_from-FollowEach 0 (open_group o e a) alerts (omega arith),
  )
