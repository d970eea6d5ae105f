-- ===== src/Entropy/Health.antt =====
-- src/arch/common/entropy/health.rs: the repetition count and adaptive proportion tests of one
-- source. The fields `apt_window` and `apt_idx`, which no code reads or writes, are left out.
pub mod Laws
use iso_light_k.Common.{
  ℕ, ◌+◌, ◌-◌, ◌^◌, min, Bool, true, false, ◌&&◌, not, ltb, leb, ◌==◌, if◌then◌else◌, List, [], ◌∷◌,
}

abbrev pub apt_window : ℕ
apt_window = 1024

abbrev pub rct_cutoff : ℕ
rct_cutoff = 41

abbrev pub apt_cutoff : ℕ
apt_cutoff = 793

abbrev pub reentry_threshold : ℕ
reentry_threshold = 16

pub data HealthVerdict : Type 0 where
  pass fail need_more_data : HealthVerdict

pub record StreamHealth : Type 0 where
  pub rct_last : ℕ
  pub rct_count : ℕ
  pub apt_observed_count : ℕ
  pub apt_initial : ℕ
  pub apt_filled : ℕ
  pub consecutive_pass : ℕ
  pub disabled : Bool

abbrev pub new : StreamHealth
new = record {
  rct_last = 0;
  rct_count = 0;
  apt_observed_count = 0;
  apt_initial = 0;
  apt_filled = 0;
  consecutive_pass = 0;
  disabled = false;
}

-- `u32::saturating_add(1)`
abbrev pub saturating_inc : ℕ → ℕ
saturating_inc n = min (n + 1) (2 ^ 32 - 1)

abbrev pub is_disabled : StreamHealth → Bool
is_disabled h = h.disabled

-- The sample counted into the window.
unfoldable pub apt_count : StreamHealth → ℕ → StreamHealth
apt_count h sample =
    if h.apt_filled == 0
    then record h { apt_initial = sample; apt_observed_count = 1 }
    else if sample == h.apt_initial
    then record h { apt_observed_count = saturating_inc h.apt_observed_count }
    else h

-- The part of `check` from the test of `apt_filled` on.
unfoldable pub apt_check : StreamHealth → ℕ → HealthVerdict × StreamHealth
unfolding apt_count
apt_check h sample =
    if ltb h.apt_filled apt_window
    then (let c = apt_count h sample in
        let filled = h.apt_filled + 1 in
        if ltb filled apt_window
        then (need_more_data, record c { apt_filled = filled })
        else let closed : StreamHealth = record c { apt_filled = 0; apt_observed_count = 0 } in
          if leb apt_cutoff c.apt_observed_count
          then (fail, record closed { disabled = true; consecutive_pass = 0 })
          else (pass, closed))
    else (pass, h)

-- A sample that passes the repetition count test: the re-admission after enough passes.
unfoldable pub readmit : StreamHealth → StreamHealth
readmit h =
    let passes = saturating_inc h.consecutive_pass in
    record h {
      consecutive_pass = passes;
      disabled = if h.disabled && leb reentry_threshold passes then false else h.disabled;
    }

unfoldable pub check : StreamHealth → ℕ → HealthVerdict × StreamHealth
unfolding apt_check readmit
check h sample =
    if sample == h.rct_last
    then (let count = saturating_inc h.rct_count in
        if leb rct_cutoff count
        then (fail, record h { rct_count = count; disabled = true; consecutive_pass = 0 })
        else apt_check (readmit (record h { rct_count = count })) sample)
    else apt_check (readmit (record h { rct_count = 1; rct_last = sample })) sample
