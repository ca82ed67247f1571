-- ===== src/Guest/Priv/Codes.antt =====
-- Condition codes and side effects of the channel instructions.
use hvf.Base.{
  holds_from, holds_from-value, bit_and, ℕ, ◌/◌, ◌%◌, ◌^◌, ◌<◌, ◌≡◌, ◌≢◌, refl, ◌∙◌, inl, inr, true,
  false, not, List, [], ◌∷◌, some, ◌==◌, arith, Bool-cases,
}
use hvf.Errno.{success}
use hvf.Guest.{Scsw, has, Vdev, Sys, Handled, set_cc, set_vdev, find_vdev, replace_vdev}
use hvf.Guest.Priv.{
  sc_status, guest_gpr, raw_s_1, with_vdev, status_pending, clear_status, handle_tsch,
}

-- The instruction names an existing device: a word-aligned operand and a subchannel of the list.
pub record Names (sys : Sys) (addr : ℕ) (v : Vdev) : Type 0 where
  pub operand : raw_s_1 sys.cpu ≡ some addr
  pub aligned : addr % 4 ≡ 0
  pub one : guest_gpr sys.cpu 1 / 2 ^ 16 % 2 ^ 16 ≡ 1
  pub found : find_vdev (guest_gpr sys.cpu 1 % 2 ^ 32) sys.virt_devs ≡ some v

pub with_vdev-Names :
    {sys : Sys} {addr : ℕ} {v : Vdev} (rest : ℕ → Vdev → Handled)
    → Names sys addr v
    → with_vdev sys rest ≡ rest addr v
unfolding with_vdev
with_vdev-Names {sys} {addr} {v} rest n = ground arith

pub find_vdev-sch : (k : ℕ) (vs : List Vdev) (v : Vdev) → find_vdev k vs ≡ some v → v.sch ≡ k
unfolding find_vdev
find_vdev-sch k [] v h = absurd (cc)
find_vdev-sch k (w ∷ vs) v h = ground (arith, find_vdev-sch k vs v)

pub find-replace :
    (j k : ℕ) (vs : List Vdev) (v' v : Vdev)
    → find_vdev k vs ≡ some v
    → v'.sch ≡ k
    → j ≡ k
    → find_vdev k (replace_vdev j v' vs) ≡ some v'
unfolding find_vdev replace_vdev
find-replace j k [] v' v h e d = absurd (cc)
find-replace j k (w ∷ vs) v' v h e d = elim (Bool-cases (w.sch == j)) [
  | inl hit ↦ rw hit (ground arith)
  | inr miss ↦ rw miss (ground (arith, find-replace j k vs v' v))
]

-- A number that is not the written device's finds what it found before.
pub find-replace_ne :
    (k j : ℕ) (vs : List Vdev) (v' : Vdev)
    → k ≢ j
    → v'.sch ≡ j
    → find_vdev k (replace_vdev j v' vs) ≡ find_vdev k vs
unfolding find_vdev replace_vdev
find-replace_ne k j [] v' ne e = refl
find-replace_ne k j (w ∷ vs) v' ne e = elim (Bool-cases (w.sch == j)) [
  | inl hit ↦ rw hit (ground arith)
  | inr miss ↦ rw miss (ground (arith, find-replace_ne k j vs v'))
]

cleared_table : holds_from 0 32 (λ sc. not (has (bit_and sc 0x1e) sc_status)) ≡ true
unfolding holds_from
cleared_table = refl

-- After TSCH no status is pending.
clear_status-sc : (w : Scsw) → w.sc < 32 → has (clear_status w).sc sc_status ≡ false
unfolding clear_status
clear_status-sc w h = ground (
  arith,
  holds_from-value 0 32 w.sc (λ sc. not (has (bit_and sc 0x1e) sc_status)) (omega arith)
      (omega (arith, h)) cleared_table,
)

-- The state that TSCH leaves where status was pending.
abbrev pub tested : Sys → Vdev → Sys
tested sys v = set_cc 0 (set_vdev (record v { scsw = clear_status v.scsw }) sys)

Names-tested :
    {sys : Sys} {addr : ℕ} {v : Vdev}
    → Names sys addr v
    → Names (tested sys v) addr (record v { scsw = clear_status v.scsw })
unfolding raw_s_1 guest_gpr
Names-tested {sys} {addr} {v} n =
    let same = find_vdev-sch _ sys.virt_devs v n.found in
    record {
      operand = n.operand;
      aligned = n.aligned;
      one = n.one;
      found = find-replace _ _ sys.virt_devs _ v n.found same same;
    }

-- TSCH on a subchannel with status pending sets condition code 0 and clears the pending status: the
-- same instruction again, on the state that it left, sets condition code 1 and changes no device.
pub tsch-tsch :
    {sys : Sys} {addr : ℕ} {v : Vdev}
    → Names sys addr v
    → v.scsw.sc < 32
    → status_pending v ≡ true
    → (handle_tsch sys ≡ some (success, tested sys v))
      × (handle_tsch (tested sys v) ≡ some (success, set_cc 1 (tested sys v)))
unfolding handle_tsch
tsch-tsch {sys} {addr} {v} n small pending = (
  with_vdev-Names _ n ∙ rw pending refl,
  with_vdev-Names _ (Names-tested n) ∙ rw (clear_status-sc v.scsw small) refl,
)
