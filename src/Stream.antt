-- ===== src/Stream.antt =====
-- lib/libc/printk.c: the streams of printf. The two buffers are one array of 1024 bytes, where the
-- second one starts at 512, and what stands behind it is the rest of the memory. What goes to the
-- console and to its log is listed.
pub mod Line
use liqui_dos.Common.{
  ℕ, zero, suc, ◌+◌, ◌-◌, Bool, ◌||◌, Option, List, [], ◌∷◌, ◌++◌, ltb, ◌==◌, if◌then◌else◌,
}
use liqui_dos.Strings.{Bytes, store}
use liqui_dos.Printf.Directive.{Args, State, Access, store_int, ssprintf}

pub record Streams : Type 0 where
  pub org : Bytes
  pub out_ptr : ℕ
  pub log_ptr : ℕ
  pub emitted : List ℕ
  pub logged : List ℕ

-- LOG_ENABLE and LOG_ALL_OUTPUT.
pub record Config : Type 0 where
  pub log_enable : Bool
  pub log_all_output : Bool

abbrev pub log_org : ℕ
log_org = 512

abbrev pub buffer_size : ℕ
buffer_size = 512

-- The bytes up to a NUL, and at most `left`.
unfoldable pub until_nul : ℕ → Bytes → ℕ → List ℕ
until_nul zero m p = []
until_nul (suc left) m p =
    let rest = until_nul left m (p + 1) in if m p == 0 then [] else m p ∷ rest

abbrev pub console_emit : ℕ → Streams → Streams
console_emit c s = record s { emitted = s.emitted ++ c ∷ [] }

abbrev pub console_puts : List ℕ → Streams → Streams
console_puts cs s = record s { emitted = s.emitted ++ cs }

abbrev pub console_log : List ℕ → Streams → Streams
console_log cs s = record s { logged = s.logged ++ cs }

-- The cases of `fflush`. The text of the log ends at the latest at the NUL that is written.
unfoldable pub flush_log : Config → Streams → Streams
unfolding until_nul
flush_log config s =
    let org = store s.log_ptr 0 s.org in
    let text = until_nul (s.log_ptr - log_org) org log_org in
    let s1 = record s { org = org; log_ptr = log_org } in
    if config.log_enable then console_log text s1 else console_puts text s1

unfoldable pub flush_out : Config → Streams → Streams
unfolding until_nul
flush_out config s =
    let org = store s.out_ptr 0 s.org in
    let s1 = console_puts (until_nul buffer_size org 0) (record s { org = org; out_ptr = 0 }) in
    if config.log_all_output then console_log (until_nul s.out_ptr org 0) s1 else s1

abbrev pub stream_out_fd : ℕ
stream_out_fd = 0

abbrev pub stream_log_fd : ℕ
stream_log_fd = 2

abbrev pub stream_err_fd : ℕ
stream_err_fd = 1

unfoldable pub fflush : Config → ℕ → Streams → Streams
unfolding flush_log flush_out
fflush config fd s =
    if fd == stream_log_fd
    then flush_log config s
    else (if fd == stream_out_fd then flush_out config s else s)

unfoldable pub stream_log : Config → ℕ → Streams → Streams
unfolding fflush
stream_log config c s =
    let s1 = record s { org = store s.log_ptr c s.org; log_ptr = s.log_ptr + 1 } in
    if c == b'\n' || ltb 512 (s1.log_ptr - log_org) then fflush config stream_log_fd s1 else s1

unfoldable pub stream_out : Config → ℕ → Streams → Streams
unfolding fflush
stream_out config c s =
    let s1 = record s { org = store s.out_ptr c s.org; out_ptr = s.out_ptr + 1 } in
    if c == b'\n' || ltb 512 s1.out_ptr then fflush config stream_out_fd s1 else s1

abbrev pub stream_err : ℕ → Streams → Streams
stream_err = console_emit

-- A function on the streams beside the memory that the arguments lead to.
abbrev pub beside : (ℕ → Streams → Streams) → ℕ → Streams × Bytes → Streams × Bytes
beside g c (s, m) = (g c s, m)

abbrev pub stream_access : Access (Streams × Bytes)
stream_access = record { memory = λ (s, m). m; store_at = λ p v (s, m). (s, store_int p v m) }

unfoldable pub printf :
    Config → ℕ → List ℕ → Args → Streams × Bytes → Option (ℕ × State (Streams × Bytes))
unfolding stream_out
printf config fuel format args s =
    ssprintf (beside (stream_out config)) stream_access fuel args format s

unfoldable pub fprintf :
    Config → ℕ → ℕ → List ℕ → Args → Streams × Bytes → Option (ℕ × State (Streams × Bytes))
unfolding stream_out stream_log
fprintf config fuel file format args s =
    let g =
      if file == stream_log_fd
      then stream_log config
      else (if file == stream_err_fd then stream_err else stream_out config) in
    ssprintf (beside g) stream_access fuel args format s
