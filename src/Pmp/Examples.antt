-- ===== src/Pmp/Examples.antt =====
-- The guards of the stacks at concrete addresses, after a switch to Task B.
use cerberus_os.Base.{◌%◌, ◌≡◌, refl, arith}
use cerberus_os.Base.Ending.{Makes}
use cerberus_os.Pmp.Driver.{PmpRegs, Layout, reprogram_pmp_stack}
use cerberus_os.Pmp.Stacks.{
  Owner, watchdog, task_a, task_b, task_c, hsm, stack_of, IsOpenFor, reprogram_pmp_stack-IsOpenFor,
}

abbrev layout : Layout
layout = record {
  wd_stack = 0x3FC8_1000;
  a_stack = 0x3FC8_1400;
  b_stack = 0x3FC8_1800;
  c_stack = 0x3FC8_1C00;
  hsm_stack = 0x3FC8_2000;
}

abbrev regs : PmpRegs
regs = record { addr = λ _. 0; cfg = λ _. 0x1818_1818 }

all_aligned : (t : Owner) → stack_of layout t % 1024 ≡ 0
all_aligned watchdog = refl
all_aligned task_a = refl
all_aligned task_b = refl
all_aligned task_c = refl
all_aligned hsm = refl

reprogram_pmp_stack-IsOpenFor_example :
    Makes (IsOpenFor layout "Task B" regs) (reprogram_pmp_stack layout "Task B" regs)
reprogram_pmp_stack-IsOpenFor_example =
    reprogram_pmp_stack-IsOpenFor layout "Task B" regs all_aligned (λ bank. omega arith)
