-- ===== src/Pmp/Stacks.antt =====
-- kernel/src/memory/pmp.rs: whose stack `reprogram_pmp_stack` opens.
use cerberus_os.Base.{
  ℕ, ◌+◌, ◌*◌, ◌/◌, ◌%◌, ◌<◌, ◌≡◌, ◌≢◌, refl, ◌∙◌, arith, if◌then◌else◌, Bool-cases, inl, inr, ◌⊎◌,
  true, String, List, [], ◌∷◌, false,
}
use cerberus_os.Base.Ending.{Makes, makes, make_bind, make_weaken}
use cerberus_os.Base.Digits.{bit_or-fields}
use cerberus_os.Pmp.Driver.{
  PmpRegs, off, napot, to_byte, napot_value, no_access, Layout, Guard, guards, guard_stack,
  guard_stacks, reprogram_pmp_stack, str_eq,
}
use cerberus_os.Pmp.Guarded.{entry_cfg, AreWords, configure_pmp-IsEntry}

-- The 1024 bytes from an aligned address on, in the encoding of the hardware.
napot_value-stack : (base : ℕ) → base % 1024 ≡ 0 → napot_value base 1024 ≡ base / 4 + 127
unfolding napot_value
napot_value-stack base e =
    let parts : base / 4 ≡ base / 1024 * 256 = omega (arith, e) in
    rw parts (bit_or-fields 8 (base / 1024) 127 (omega arith))

-- The entry of a stack: off for the active task, else all access to the stack denied.
pub record IsGuarded (active : String) (r : PmpRegs) (g : Guard) : Type 0 where
  pub cfg : entry_cfg r g.entry ≡ (if str_eq g.name active then 0 else 0x18)
  pub addr : str_eq g.name active ≡ false → r.addr g.entry ≡ g.stack / 4 + 127

abbrev pub AllGuarded : String → PmpRegs → List Guard → Type 0
AllGuarded active r [] = Unit
AllGuarded active r (g ∷ gs) = IsGuarded active r g × AllGuarded active r gs

-- The entry `j` is of none of the guards.
abbrev pub Avoids : ℕ → List Guard → Type 0
Avoids j [] = Unit
Avoids j (g ∷ gs) = (g.entry ≢ j) × Avoids j gs

-- Entries in range and apart, and stacks aligned.
abbrev AreApart : List Guard → Type 0
AreApart [] = Unit
AreApart (g ∷ gs) = (g.entry < 7) × (g.stack % 1024 ≡ 0) × Avoids g.entry gs × AreApart gs

pub record AreGuarded (active : String) (gs : List Guard) (r r' : PmpRegs) : Type 0 where
  pub words : AreWords r'
  pub stacks : AllGuarded active r' gs
  pub others : (j : ℕ) → Avoids j gs → (r'.addr j ≡ r.addr j) × (entry_cfg r' j ≡ entry_cfg r j)

-- Registers that agree outside the entries of `gs` guard the same.
kept :
    (active : String) (hs gs : List Guard) (r r' : PmpRegs)
    → ((j : ℕ) → Avoids j hs → (r'.addr j ≡ r.addr j) × (entry_cfg r' j ≡ entry_cfg r j))
    → (g : Guard) → Avoids g.entry hs
    → IsGuarded active r g
    → IsGuarded active r' g
kept active hs gs r r' same g away h = record {
  cfg = (same g.entry away).1 ∙ h.cfg;
  addr = λ e. (same g.entry away).0 ∙ h.addr e;
}

guard_stack-IsGuarded :
    (active : String) (g : Guard) (r : PmpRegs)
    → g.entry < 7
    → g.stack % 1024 ≡ 0
    → AreWords r
    → Makes (AreGuarded active (g ∷ []) r) (guard_stack active g r)
unfolding guard_stack to_byte
guard_stack-IsGuarded active g r lt al w = elim (Bool-cases (str_eq g.name active)) [
  | inl e ↦ rw e (
      make_weaken (configure_pmp-IsEntry g.entry 0 1024 (no_access off) r lt w) (λ r' h. record {
        words = h.words;
        stacks = (record { cfg = rw e h.cfg; addr = λ e'. absurd (cc (e, e')) }, tt);
        others = λ j away. (h.other_addr j away.0, h.other_cfg j away.0);
      }))
  | inr e ↦ rw e (
      make_weaken (configure_pmp-IsEntry g.entry g.stack 1024 (no_access napot) r lt w) (λ r' h.
        record {
          words = h.words;
          stacks =
              (record { cfg = rw e h.cfg; addr = λ e'. h.addr ∙ napot_value-stack g.stack al }, tt);
          others = λ j away. (h.other_addr j away.0, h.other_cfg j away.0);
        }))
]

guard_stacks-AreGuarded :
    (active : String) (gs : List Guard) (r : PmpRegs)
    → AreApart gs
    → AreWords r
    → Makes (AreGuarded active gs r) (guard_stacks active gs r)
unfolding guard_stacks
guard_stacks-AreGuarded active [] r fit w =
    makes (record { words = w; stacks = tt; others = λ j away. (refl, refl) })
guard_stacks-AreGuarded active (g ∷ gs) r (lt, al, away, rest) w =
    make_bind (guard_stack active g r) (guard_stack-IsGuarded active g r lt al w) (λ r1 h.
      make_weaken (guard_stacks-AreGuarded active gs r1 rest h.words) (λ r' h'. record {
        words = h'.words;
        stacks = (kept active gs gs r1 r' h'.others g away (h.stacks.0), h'.stacks);
        others = λ j (a, more).
            let (p, q) = h'.others j more in let (p', q') = h.others j (a, tt) in (p ∙ p', q ∙ q');
      }))

-- The five tasks with a stack of their own, with the names that boot registers them under, the stack
-- and the PMP entry of each.
pub data Owner : Type 0 where
  watchdog task_a task_b task_c hsm : Owner

abbrev pub name_of : Owner → String
name_of watchdog = "Watchdog"
name_of task_a = "Task A"
name_of task_b = "Task B"
name_of task_c = "Task C"
name_of hsm = "HSM Task"

abbrev pub stack_of : Layout → Owner → ℕ
stack_of l watchdog = l.wd_stack
stack_of l task_a = l.a_stack
stack_of l task_b = l.b_stack
stack_of l task_c = l.c_stack
stack_of l hsm = l.hsm_stack

abbrev pub entry_of : Owner → ℕ
entry_of watchdog = 1
entry_of task_a = 2
entry_of task_b = 4
entry_of task_c = 5
entry_of hsm = 6

-- The registers after a switch to the task named `active`. What an access meets is up to the hardware,
-- which takes the first entry that matches, and entry 3 stands before entries 4, 5 and 6.
pub record IsOpenFor (l : Layout) (active : String) (r r' : PmpRegs) : Type 0 where
  pub cfg :
      (t : Owner) → entry_cfg r' (entry_of t) ≡ (if str_eq (name_of t) active then 0 else 0x18)
  pub addr :
      (t : Owner)
      → (str_eq (name_of t) active ≡ true) ⊎ (r'.addr (entry_of t) ≡ stack_of l t / 4 + 127)
  pub flash : (r'.addr 0 ≡ r.addr 0) × (entry_cfg r' 0 ≡ entry_cfg r 0)
  pub sram : (r'.addr 3 ≡ r.addr 3) × (entry_cfg r' 3 ≡ entry_cfg r 3)

read_addr :
    (active : String) (r : PmpRegs) (g : Guard)
    → IsGuarded active r g
    → (str_eq g.name active ≡ true) ⊎ (r.addr g.entry ≡ g.stack / 4 + 127)
read_addr active r g h = elim (Bool-cases (str_eq g.name active)) [
  | inl same ↦ inl same
  | inr other ↦ inr (h.addr other)
]

AreGuarded-IsOpenFor :
    (l : Layout) (active : String) (r r' : PmpRegs)
    → AreGuarded active (guards l) r r'
    → IsOpenFor l active r r'
AreGuarded-IsOpenFor l active r r' h =
    let (wd, (a, (b, (c, (hsm', last))))) = h.stacks in
    record {
      cfg = λ t.
          elim t
            as (λ t'.
              entry_cfg r' (entry_of t') ≡ (if str_eq (name_of t') active then 0 else 0x18)) [
                | watchdog ↦ wd.cfg
                | task_a ↦ a.cfg
                | task_b ↦ b.cfg
                | task_c ↦ c.cfg
                | hsm ↦ hsm'.cfg
              ];
      addr = λ t.
          elim t
            as (λ t'.
              (str_eq (name_of t') active ≡ true)
              ⊎ (r'.addr (entry_of t') ≡ stack_of l t' / 4 + 127)) [
                | watchdog ↦ read_addr active r' _ wd
                | task_a ↦ read_addr active r' _ a
                | task_b ↦ read_addr active r' _ b
                | task_c ↦ read_addr active r' _ c
                | hsm ↦ read_addr active r' _ hsm'
              ];
      flash =
          h.others 0 (omega arith, (omega arith, (omega arith, (omega arith, (omega arith, tt)))));
      sram =
          h.others 3 (omega arith, (omega arith, (omega arith, (omega arith, (omega arith, tt)))));
    }

-- With stacks aligned to 1024 bytes and 32-bit words in the configuration registers, the call returns.
-- Of the Watchdog, Task A, Task B, Task C and the HSM task, the entry (1, 2, 4, 5 and 6) of the one
-- that is named is off; the entry of each other one spans exactly the 1024 bytes of its stack and gives
-- no right to them. Entries 0 and 3, for the flash and all of the SRAM, are as before.
pub reprogram_pmp_stack-IsOpenFor :
    (l : Layout) (active : String) (r : PmpRegs)
    → ((t : Owner) → stack_of l t % 1024 ≡ 0)
    → AreWords r
    → Makes (IsOpenFor l active r) (reprogram_pmp_stack l active r)
unfolding reprogram_pmp_stack
reprogram_pmp_stack-IsOpenFor l active r aligned w =
    make_weaken
      (guard_stacks-AreGuarded active (guards l) r
        (
          omega arith,
          aligned watchdog,
          (omega arith, (omega arith, (omega arith, (omega arith, tt)))),
          (
            omega arith,
            aligned task_a,
            (omega arith, (omega arith, (omega arith, tt))),
            (
              omega arith,
              aligned task_b,
              (omega arith, (omega arith, tt)),
              (omega arith, aligned task_c, (omega arith, tt), (omega arith, aligned hsm, tt, tt)),
            ),
          ),
        )
        w)
      (λ r' h. AreGuarded-IsOpenFor l active r r' h)
