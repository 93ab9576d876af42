-- ===== src/Trace.antt =====
-- arch/x86/strace.cc: the stack trace through the saved frame pointers. `word` is the 32-bit word at
-- an address of the stack, and each round adds what it prints.
pub mod Ends
use mathlib.Core.Option
use liqui_dos.Common.{
  ℕ, zero, suc, ◌+◌, ◌-◌, ◌%◌, ◌^◌, Bool, ◌&&◌, Option, none, some, List, [], ◌∷◌, ltb,
  if◌then◌else◌,
}
use liqui_dos.Strings.{Bytes}
use liqui_dos.Elf.{Context, get_symbol_addr32, get_symbol_name32}
use liqui_dos.Loader.{virt_base, stack_bottom}
use liqui_dos.Paging.{page_size}

-- A line of the trace. A name of `none` is NULL, and `unknown` is where "???" stands.
pub record Call : Type 0 where
  pub sym_addr : ℕ
  pub sym_name : Option ℕ
  pub offset : ℕ

abbrev pub in_stack : ℕ → Bool
in_stack ebp = ltb ebp stack_bottom && ltb (stack_bottom - page_size) ebp

unfoldable pub call_at : Bytes → Context → ℕ → ℕ → Call
call_at m ctx unknown eip =
    let sym_addr = get_symbol_addr32 m eip ctx in
    record {
      sym_addr = sym_addr;
      sym_name = if ltb sym_addr virt_base then some unknown else get_symbol_name32 m eip ctx;
      offset = (eip + 2 ^ 32 - sym_addr) % 2 ^ 32;
    }

-- The loop on fuel; `none` is a trace that goes on.
unfoldable pub walk_stack : ℕ → Bytes → Context → ℕ → (ℕ → ℕ) → ℕ → Option (List Call)
unfolding call_at
walk_stack zero m ctx unknown word ebp = none
walk_stack (suc fuel) m ctx unknown word ebp =
    let rest = walk_stack fuel m ctx unknown word (word ebp) in
    let calls = Option.map (λ cs. call_at m ctx unknown (word (ebp + 4)) ∷ cs) rest in
    if in_stack ebp then calls else some []

-- `own` is the address of the parameter, two words above the function's own frame pointer.
unfoldable pub call_stack_trace :
    ℕ → Bytes → Context → ℕ → (ℕ → ℕ) → ℕ → Bool → ℕ → Option (List Call)
unfolding walk_stack
call_stack_trace fuel m ctx unknown word ebp from_here own =
    walk_stack fuel m ctx unknown word (if from_here then own - 8 else ebp)
