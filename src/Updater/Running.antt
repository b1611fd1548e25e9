-- ===== src/Updater/Running.antt =====
-- When `Start` of internal/updater/service.go runs the update again.
use nusantara_panel.Base.{
  lt→ltb, ◌||◌, ◌&&◌, text_eq, equal_fold, trim_space, not, true, false, [], codes, ℕ, Text, Option,
  ok, err, ◌≡◌, refl, ◌+◌, ◌*◌, ◌^◌, ◌≤◌, ◌<◌, Bool-cases, inl, inr, arith, none, some, Unicode,
}
use nusantara_panel.Store.{Time}
use nusantara_panel.Updater.{Service, Status, cooling, wait_since, cooldown_wait, validate_config}
use nusantara_panel.Updater.System.{Host, status}
use nusantara_panel.Updater.Launch.{Clock, start, launch, positive}

wait_since-later :
    (cooldown now : ℕ) (o : Option Time)
    → ((t : Time) → o ≡ some t → t ≤ now)
    → wait_since cooldown (now + wait_since cooldown now o * 10 ^ 9) o ≡ 0
wait_since-later cooldown now none h = refl
wait_since-later cooldown now (some t) h = let past = h t refl in ground (arith, past)

wait_since_bound : (cooldown now : ℕ) (o : Option Time) → wait_since cooldown now o ≤ cooldown
wait_since_bound cooldown now none = omega arith
wait_since_bound cooldown now (some t) = ground arith

module _ ⦃u : Unicode⦄ (parse_time : Text → Option Time) (cooldown : ℕ) (st : Status) where
  pub cooldown_wait_bound : (now : Time) → cooldown_wait parse_time cooldown st now ≤ cooldown
  unfolding cooldown_wait
  cooldown_wait_bound now =
      ground
        (arith, wait_since_bound cooldown now (parse_time (trim_space st.state_change_timestamp)))

  pub cooldown_wait-later :
      (now : Time)
      → ((t : Time) → parse_time (trim_space st.state_change_timestamp) ≡ some t → t ≤ now)
      → cooldown_wait parse_time cooldown st
          (now + cooldown_wait parse_time cooldown st now * 10 ^ 9)
        ≡ 0
  unfolding cooldown_wait
  cooldown_wait-later now h = elim (Bool-cases (not st.exists || st.running)) [
    | inl e ↦ rw e refl
    | inr e ↦
        elim (Bool-cases (
          text_eq (trim_space st.state_change_timestamp) []
          || equal_fold (trim_space st.state_change_timestamp) (codes "n/a"))) [
            | inl e' ↦ rw (e, e') refl
            | inr e' ↦
                rw (e, e')
                  (wait_since-later cooldown now (parse_time (trim_space st.state_change_timestamp))
                    h)
          ]
  ]

module _ ⦃u : Unicode⦄ {F : Type 0} (host : Host F) (s : Service) (clock : Clock) where
  abbrev wait : Status → ℕ
  wait st = cooldown_wait host.parse_time (positive s.cfg.cooldown) st clock.now

  -- The clock once the wait is over.
  abbrev later : Status → Clock
  later st = record clock { now = clock.now + wait st * 10 ^ 9 }

  -- When the updater is enabled and its settings are valid, its unit is not running, a wait is left
  -- of the cooldown, and the clock is not behind the time of the last change of the unit, `start`
  -- refuses with the seconds that are left, which are at most the cooldown. Once they are over, and if
  -- the system still stands as it did, the next attempt launches the update.
  pub start_after_wait :
      (st : Status) (f g : F)
      → s.enabled ≡ true
      → validate_config host.is_uri s.cfg ≡ ok tt
      → status host s clock.checked_at f ≡ (ok st, g)
      → (st.exists && st.running) ≡ false
      → 0 < wait st
      → ((t : Time)
          → host.parse_time (trim_space st.state_change_timestamp) ≡ some t
          → t ≤ clock.now)
      → (start host s clock f ≡ (err (cooling (wait st)), g))
        × (wait st ≤ positive s.cfg.cooldown)
        × (start host s (later st) f ≡ launch host s (later st) g)
  unfolding start
  start_after_wait st f g on valid read idle left past =
      let bound = cooldown_wait_bound host.parse_time (positive s.cfg.cooldown) st clock.now in
      let cools = lt→ltb 0 (positive s.cfg.cooldown) (omega arith) in
      let over = cooldown_wait-later host.parse_time (positive s.cfg.cooldown) st clock.now past in
      (
        simp (on, valid, read, idle, lt→ltb 0 (wait st) left, cools),
        bound,
        simp (on, valid, read, idle, over, cools),
      )
