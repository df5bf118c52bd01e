-- ===== src/Pmp/Guarded.antt =====
-- kernel/src/memory/pmp.rs: what `reprogram_pmp_stack` leaves in the registers.
use cerberus_os.Base.{
  ℕ, ◌*◌, ◌/◌, ◌%◌, ◌^◌, ◌<◌, ◌≡◌, ◌≢◌, refl, ◌∙◌, ap, arith, ◌==◌, ==_iff, if◌then◌else◌,
  Bool-cases, inl, inr, lt→ltb, ==_refl,
}
use cerberus_os.Base.Ending.{Makes, makes}
use cerberus_os.Pmp.Driver.{PmpRegs, PmpConfig, to_byte, napot_value, replace_byte, configure_pmp}
use cerberus_os.Pmp.Lanes.{lane, replace_byte-lane}

-- Entry `e` as the hardware reads it: its address register, and its configuration byte.
abbrev pub entry_cfg : PmpRegs → ℕ → ℕ
entry_cfg r e = lane (r.cfg (e / 4)) (e % 4)

-- The configuration registers are 32-bit words.
abbrev pub AreWords : PmpRegs → Type 0
AreWords r = (bank : ℕ) → r.cfg bank < 2 ^ 32

-- Entry `e` reads `base` and `byte`, and every other entry is as it was.
pub record IsEntry (e base byte : ℕ) (r r' : PmpRegs) : Type 0 where
  pub words : AreWords r'
  pub addr : r'.addr e ≡ base
  pub cfg : entry_cfg r' e ≡ byte
  pub other_addr : (j : ℕ) → e ≢ j → r'.addr j ≡ r.addr j
  pub other_cfg : (j : ℕ) → e ≢ j → entry_cfg r' j ≡ entry_cfg r j

to_byte-lt : (c : PmpConfig) → to_byte c < 256
unfolding to_byte
to_byte-lt c = ground arith

pub configure_pmp-IsEntry :
    (e base size : ℕ) (c : PmpConfig) (r : PmpRegs)
    → e < 7
    → AreWords r
    → Makes (IsEntry e (napot_value base size) (to_byte c) r) (configure_pmp e base size c r)
unfolding configure_pmp
configure_pmp-IsEntry e base size c r lt w = rw (lt→ltb e 7 lt) (
    makes (record {
      words = λ bank. elim (Bool-cases (e / 4 == bank)) [
        | inl same ↦ rw same ((replaced 0 (omega arith)).0)
        | inr other ↦ rw other (w bank)
      ];
      addr = rw (==_refl e) refl;
      cfg = rw (==_refl (e / 4)) ((replaced (e % 4) (omega arith)).1 ∙ rw (==_refl (e % 4)) refl);
      other_addr = λ j ne. elim (Bool-cases (e == j)) [
        | inl same ↦ absurd (ne ((==_iff e j).0 same))
        | inr other ↦ rw other refl
      ];
      other_cfg = λ j ne. elim (Bool-cases (e / 4 == j / 4)) [
        | inl same ↦ rw same (beside j ne ((==_iff (e / 4) (j / 4)).0 same))
        | inr other ↦ rw other refl
      ];
    }))
  where
    replaced :
        (j : ℕ)
        → j < 4
        → (replace_byte (r.cfg (e / 4)) (e % 4 * 8) (to_byte c) < 2 ^ 32)
          × (lane (replace_byte (r.cfg (e / 4)) (e % 4 * 8) (to_byte c)) j
              ≡ (if e % 4 == j then to_byte c else lane (r.cfg (e / 4)) j))
    replaced j lt =
        replace_byte-lane (r.cfg (e / 4)) (to_byte c) (w (e / 4)) (to_byte-lt c) (e % 4) j
          (omega arith) lt

    beside :
        (j : ℕ)
        → e ≢ j
        → e / 4 ≡ j / 4
        → lane (replace_byte (r.cfg (e / 4)) (e % 4 * 8) (to_byte c)) (j % 4) ≡ entry_cfg r j
    beside j ne same = elim (Bool-cases (e % 4 == j % 4)) [
      | inl eq ↦ absurd (ne (omega (arith, (==_iff (e % 4) (j % 4)).0 eq, same)))
      | inr apart ↦
          (replaced (j % 4) (omega arith)).1
          ∙ rw apart (ap (λ bank. lane (r.cfg bank) (j % 4)) same)
    ]
