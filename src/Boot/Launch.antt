-- ===== src/Boot/Launch.antt =====
-- kernel/src/main.rs: from reset to the traps of a system that runs on both cores.
use cerberus_os.Base.{
  ℕ, zero, suc, ◌+◌, ◌≤◌, ◌≡◌, sym, ◌∙◌, refl, Bool, true, inl, inr, ◌⊎◌, ◌&&◌, arith, List,
}
use cerberus_os.Base.Outcome.{Outcome, done, panicked, spinning}
use cerberus_os.Base.Ending.{make_complete}
use cerberus_os.Scheduler.Bitmap.{BitMapScheduler}
use cerberus_os.Scheduler.Invariant.{IsWellFormed}
use cerberus_os.Security.Bootloader.{
  verify_secure_boot, verify_secure_boot_iff, trusted_payload, expected_hash,
}
use cerberus_os.Trap.State.{Hart, hart0, hart1}
use cerberus_os.Trap.Runs.{IsQuiet}
use cerberus_os.Boot.Image.{Image}
use cerberus_os.Boot.Tasks.{both}
use cerberus_os.Boot.Cores.{
  Stage, is_launched, Machine, Clock, Attempt, try_boot_0, try_boot_1, try_start_0, try_start_1,
  Step, boots_0, boots_1, starts_0, starts_1, Boots, power, step, steps,
}
use cerberus_os.Boot.Safe.{
  Reset, power_on, Lead, lead_reset, lead_halted, lead_armed, lead_launched, Follow, follow_reset,
  follow_armed, follow_launched, IsSafe,
}
use cerberus_os.Boot.Ahead.{
  Step-IsAhead, stages_left, reached-IsSafe, Boots-IsSafe, boot_core_0-IsAhead, boot_core_1-IsAhead,
  launch_0-IsAhead, launch_1-IsAhead,
}

first_running :
    {ok released answered : Bool} {scheds : Hart → BitMapScheduler} {st : Stage}
    → Lead ok released answered scheds st
    → is_launched st ≡ true
    → (ok ≡ true) × (released ≡ true) × (answered ≡ true) × IsWellFormed (scheds hart0)
first_running (lead_reset r idle) e = absurd (cc e)
first_running (lead_halted r o) e = absurd (cc e)
first_running (lead_armed r o w) e = absurd (cc e)
first_running (lead_launched r a o w) e = (o, r, a, w)

second_running :
    {released answered : Bool} {s : BitMapScheduler} {st : Stage}
    → Follow released answered s st
    → is_launched st ≡ true
    → (released ≡ true) × (answered ≡ true) × IsWellFormed s
second_running (follow_reset w) e = absurd (cc e)
second_running (follow_armed r a w) e = absurd (cc e)
second_running (follow_launched r a w) e = (r, a, w)

lead-ok :
    {ok released answered : Bool} {scheds : Hart → BitMapScheduler} {st : Stage}
    → Lead ok released answered scheds st
    → released ≡ true
    → ok ≡ true
lead-ok (lead_reset r idle) e = absurd (cc (e, r))
lead-ok (lead_halted r o) e = absurd (cc (e, r))
lead-ok (lead_armed r o w) e = o
lead-ok (lead_launched r a o w) e = o

abbrev pub all_launched : Machine → Bool
all_launched b = is_launched (b.stage hart0) && is_launched (b.stage hart1)

safe-IsQuiet : {ok : Bool} {b : Machine} → IsSafe ok b → all_launched b ≡ true → IsQuiet b.kernel
safe-IsQuiet {b = b} safe e = record {
  sched_free = safe.sched_free;
  mutex_free = safe.mutex_free;
  tables =
      both (λ h. IsWellFormed (b.kernel.core.scheds h))
        ((first_running safe.lead (ground (arith, e))).3)
        ((second_running safe.follow (ground (arith, e))).2);
}

launched-Checked :
    {ok : Bool} {b : Machine} (h : Hart)
    → IsSafe ok b
    → is_launched (b.stage h) ≡ true
    → (ok ≡ true) × (b.boot_barrier ≡ true) × (b.core_1_ready ≡ true)
launched-Checked hart0 safe e = let (o, r, a, w) = first_running safe.lead e in (o, r, a)
launched-Checked hart1 safe e =
    let (r, a, w) = second_running safe.follow e in (lead-ok safe.lead r, r, a)

module _ (img : Image) (sha256 : List ℕ → List ℕ) where
  -- Once both cores run their first tasks.
  pub booted-IsQuiet :
      (r : Reset) {b : Machine}
      → Boots img sha256 (power_on r) b
      → all_launched b ≡ true
      → IsQuiet b.kernel
  booted-IsQuiet r boot up = safe-IsQuiet (reached-IsSafe img sha256 r boot) up

  -- A core that runs a task, in any machine reached from reset: the hash of the trusted payload is the
  -- expected one, core 0 has released core 1, and core 1 has answered.
  pub launched-IsVerified :
      (r : Reset) {b : Machine} (h : Hart)
      → Boots img sha256 (power_on r) b
      → is_launched (b.stage h) ≡ true
      → (sha256 trusted_payload ≡ expected_hash) × (b.boot_barrier ≡ true) × (b.core_1_ready ≡ true)
  launched-IsVerified r h boot up =
      let (ok, released, answered) = launched-Checked h (reached-IsSafe img sha256 r boot) up in
      ((verify_secure_boot_iff sha256).0 ok, released, answered)

  -- Where a safe machine can go: it runs on both cores, or a core can get one stage further.
  next :
      (k : Clock) {b : Machine} {st0 st1 : Stage}
      → IsSafe (verify_secure_boot sha256) b
      → verify_secure_boot sha256 ≡ true
      → b.stage hart0 ≡ st0
      → b.stage hart1 ≡ st1
      → Lead (verify_secure_boot sha256) b.boot_barrier b.core_1_ready b.kernel.core.scheds st0
      → Follow b.boot_barrier b.core_1_ready (b.kernel.core.scheds hart1) st1
      → (all_launched b ≡ true) ⊎ ((b' : Machine) × Step img sha256 b b')
  next k {b = b} safe ok e0 e1 (lead_reset r idle) f =
      let (b', e) = make_complete (boot_core_0-IsAhead img sha256 k b e0 safe) in
      inr (b', boots_0 k e0 e)
  next k safe ok e0 e1 (lead_halted r o) f = absurd (cc (ok, o))
  next k {b = b} safe ok e0 e1 (lead_armed r o w) (follow_reset w') =
      let (b', e) = make_complete (boot_core_1-IsAhead img sha256 k b e1 r safe) in
      inr (b', boots_1 k e1 r e)
  next k {b = b} safe ok e0 e1 (lead_armed r o w) (follow_armed r' a w') =
      let (b', e) = make_complete (launch_1-IsAhead img sha256 _ b e1 safe) in
      inr (b', starts_1 e1 e)
  next k {b = b} safe ok e0 e1 (lead_armed r o w) (follow_launched r' a w') =
      let (b', e) = make_complete (launch_0-IsAhead img sha256 _ b e0 a safe) in
      inr (b', starts_0 e0 a e)
  next k {b = b} safe ok e0 e1 (lead_launched r a o w) (follow_reset w') =
      let (b', e) = make_complete (boot_core_1-IsAhead img sha256 k b e1 r safe) in
      inr (b', boots_1 k e1 r e)
  next k {b = b} safe ok e0 e1 (lead_launched r a o w) (follow_armed r' a' w') =
      let (b', e) = make_complete (launch_1-IsAhead img sha256 _ b e1 safe) in
      inr (b', starts_1 e1 e)
  next k safe ok e0 e1 (lead_launched r a o w) (follow_launched r' a' w') = inl (rw e0 (rw e1 refl))

  before :
      {b b' b'' : Machine} → Step img sha256 b b' → Boots img sha256 b' b'' → Boots img sha256 b b''
  before s power = step power s
  before s (step run t) = step (before s run) t

  from_safe :
      (k : Clock) (n : ℕ) (b : Machine)
      → verify_secure_boot sha256 ≡ true
      → IsSafe (verify_secure_boot sha256) b
      → stages_left b ≤ n
      → (b' : Machine) × Boots img sha256 b b' × (all_launched b' ≡ true)
  from_safe k zero b ok safe le = elim (next k safe ok refl refl safe.lead safe.follow) [
    | inl up ↦ (b, power, up)
    | inr go ↦ let lt = (Step-IsAhead img sha256 (go.1) safe).nearer in absurd (omega arith)
  ]
  from_safe k (suc n) b ok safe le = elim (next k safe ok refl refl safe.lead safe.follow) [
    | inl up ↦ (b, power, up)
    | inr go ↦
        let ahead = Step-IsAhead img sha256 (go.1) safe in
        let lt = ahead.nearer in
        let (b', run, up) = from_safe k n (go.0) ok ahead.safe (omega arith) in
        (b', before (go.1) run, up)
  ]

  steps-left :
      {b b' : Machine} (run : Boots img sha256 b b')
      → IsSafe (verify_secure_boot sha256) b
      → steps run + stages_left b' ≤ stages_left b
  steps-left power safe = omega arith
  steps-left (step run s) safe =
      let ahead = Step-IsAhead img sha256 s (Boots-IsSafe img sha256 run safe) in
      let lt = ahead.nearer in omega (arith, steps-left run safe)

  Attempt-done :
      {b : Machine} {o : Outcome Machine}
      → IsSafe (verify_secure_boot sha256) b
      → verify_secure_boot sha256 ≡ true
      → Attempt img sha256 b o
      → (b' : Machine) × (o ≡ done b')
  Attempt-done {b = b} safe ok (try_boot_0 k at e) =
      let (b', e') = make_complete (boot_core_0-IsAhead img sha256 k b at safe) in (b', sym e ∙ e')
  Attempt-done {b = b} safe ok (try_boot_1 k at released e) =
      let (b', e') = make_complete (boot_core_1-IsAhead img sha256 k b at released safe) in
      (b', sym e ∙ e')
  Attempt-done {b = b} safe ok (try_start_0 at answered e) =
      let (b', e') = make_complete (launch_0-IsAhead img sha256 _ b at answered safe) in
      (b', sym e ∙ e')
  Attempt-done {b = b} safe ok (try_start_1 at e) =
      let (b', e') = make_complete (launch_1-IsAhead img sha256 _ b at safe) in (b', sym e ∙ e')

  -- If the secure boot check passes, then in every machine reached from reset, in any order of the two
  -- cores: no core that can go on panics in its next stage, and none waits there without end; the
  -- machine is at most four stages on; and further stages of the two cores lead from it to one that
  -- runs on both.
  pub reached-CanLaunch :
      (r : Reset) (k : Clock) {b : Machine}
      → verify_secure_boot sha256 ≡ true
      → (boot : Boots img sha256 (power_on r) b)
      → (¬ Attempt img sha256 b panicked)
        × (¬ Attempt img sha256 b spinning)
        × (steps boot ≤ 4)
        × (b' : Machine) × Boots img sha256 b b'
        × (all_launched b' ≡ true)
  reached-CanLaunch r k {b = b} ok boot =
      let safe = reached-IsSafe img sha256 r boot in
      let (b', run, up) = from_safe k (stages_left b) b ok safe (omega arith) in
      (
        λ t. absurd (cc (Attempt-done safe ok t).1),
        λ t. absurd (cc (Attempt-done safe ok t).1),
        omega (arith, steps-left boot (reached-IsSafe img sha256 r power)),
        b',
        run,
        up,
      )
