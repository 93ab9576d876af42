-- ===== src/Printf/Kept.antt =====
-- The parts of a round of ssprintf of lib/libc/vsprintf.c as events, from a state with a property
-- that they keep.
use mathlib.Core.Option
use mathlib.Core.Path.{subst}
use liqui_dos.Printf.{Flags, Out, rounds, int_minus, f, fill, emit, num, put_char}
use liqui_dos.Printf.Directive.{Args, Access, text_at, print_text, put_text}
use liqui_dos.Printf.Text.{fill_lem, num-emit, number_text}
use liqui_dos.Common.{
  ℕ, zero, suc, ◌+◌, ◌%◌, ◌^◌, ◌≡◌, inl, inr, refl, sym, ap, ◌∙◌, some, List, [], ◌∷◌, ◌++◌,
  Bool-cases, length, replicate,
}
use liqui_dos.Printf.Replay.{
  Event, handed, stored, replay, store_count, replay-append, IsKept, text_zero, text_none,
  text_rest,
}

-- Two states of a run.
pub record IsRun {ℓ} {S : Type ℓ} (g : ℕ → S → S) (access : Access S) (args : Args)
    (Holds : S → Type ℓ) (before after : Out S) : Type ℓ where
  pub events : List Event
  pub replayed : after ≡ replay g access args events before
  pub holds : Holds after.sink

module _ {ℓ} {S : Type ℓ} (g : ℕ → S → S) (access : Access S) (fuel : ℕ) (args : Args)
    (Holds : S → Type ℓ) (kept : IsKept g access fuel args Holds) where
  unfoldable pub From : Out S → Out S → Type ℓ
  From before after = IsRun g access args Holds before after

  pub From-holds : (before after : Out S) → From before after → Holds after.sink
  unfolding From
  From-holds before after a = a.holds

  pub nothing : (out : Out S) → Holds out.sink → From out out
  unfolding replay From
  nothing out h = record { events = []; replayed = refl; holds = h }

  pub one_handed : (c : ℕ) (out : Out S) → Holds out.sink → From out (f g c out)
  unfolding replay f From
  one_handed c out h = record {
    events = handed c ∷ [];
    replayed = refl;
    holds = kept.handing c out.sink h;
  }

  pub one_stored :
      (k : ℕ) (out : Out S) → Holds out.sink → From out (store_count g access args k out)
  unfolding replay store_count From
  one_stored k out h = record {
    events = stored k ∷ [];
    replayed = refl;
    holds = kept.storing k out.written out.sink h;
  }

  pub and_then : (o1 o2 o3 : Out S) → From o1 o2 → From o2 o3 → From o1 o3
  unfolding From
  and_then o1 o2 o3 a b = record {
    events = a.events ++ b.events;
    replayed =
        b.replayed
        ∙ ap (replay g access args b.events) a.replayed
        ∙ sym (replay-append g access args a.events b.events o1);
    holds = b.holds;
  }

  emit-From : (cs : List ℕ) (out : Out S) → Holds out.sink → From out (emit g cs out)
  unfolding emit
  emit-From [] out h = nothing out h
  emit-From (c ∷ cs) out h =
      let first = one_handed c out h in
      and_then _ _ _ first (emit-From cs (f g c out) (From-holds out (f g c out) first))

  fill-From : (w c : ℕ) (out : Out S) → Holds out.sink → From out (fill g w c out)
  fill-From w c out h =
      subst (λ o. From out o) (sym (fill_lem g w c out)) (emit-From (replicate w c) out h)

  pub num-From :
      (val base : ℕ) (flags : Flags) (width percision : ℕ) (out : Out S)
      → Holds out.sink
      → From out (num g val base flags width percision out)
  num-From val base flags width percision out h =
      subst (λ o. From out o) (sym (num-emit g val base flags width percision out))
        (emit-From (number_text val base flags width percision) out h)

  pub put_char-From :
      (flags : Flags) (width c : ℕ) (out : Out S)
      → Holds out.sink
      → From out (put_char g flags width c out)
  unfolding put_char
  put_char-From flags width c out h =
      let w : ℕ = rounds (int_minus width 1) in
      let char = one_handed c out h in
      let spaces = fill-From w 32 out h in
      elim (Bool-cases flags.left) [
        | inl left ↦ rw left (and_then _ _ _ char (fill-From w 32 _ (From-holds _ _ char)))
        | inr right ↦ rw right (and_then _ _ _ spaces (one_handed c _ (From-holds _ _ spaces)))
      ]

  -- A character of a text is read from the state that the characters before it lead to.
  print_text-emit :
      (Also : S → Type ℓ)
      → ((c : ℕ) (s : S) → Also s → Also (g c s))
      → (left p : ℕ) (cs : List ℕ) → ((s : S) → Also s → text_at left (access.memory s) p ≡ some cs)
      → (out : Out S) → Also out.sink
      → print_text g access fuel args left p out ≡ some (emit g cs out)
  unfolding print_text emit f
  print_text-emit Also goes_on zero p cs reads out h = absurd (text_zero _ p cs (reads out.sink h))
  print_text-emit Also goes_on (suc left) p [] reads out h =
      rw (text_none left _ p (reads out.sink h)) refl
  print_text-emit Also goes_on (suc left) p (c ∷ cs) reads out h =
      let (here, char, rest) = text_rest left _ p c cs (reads out.sink h) in
      rw (here, char)
        (print_text-emit Also goes_on left (p + 1) cs
          (λ s a. (text_rest left _ p c cs (reads s a)).2) (f g c out) (goes_on c out.sink h))

  print_text-From :
      (k : ℕ) (cs : List ℕ) (out : Out S)
      → Holds out.sink
      → text_at fuel (access.memory out.sink) (args k % 2 ^ 32) ≡ some cs
      → print_text g access fuel args fuel (args k % 2 ^ 32) out ≡ some (emit g cs out)
  print_text-From k cs out h e =
      print_text-emit (λ s. Holds s × (text_at fuel (access.memory s) (args k % 2 ^ 32) ≡ some cs))
        (λ c s (a, b). (kept.handing c s a, kept.text_kept c k s a ∙ b)) fuel _ cs (λ s (a, b). b)
        out (h, e)

  fill-text :
      (w c k : ℕ) (cs : List ℕ) (out : Out S)
      → Holds out.sink
      → text_at fuel (access.memory out.sink) (args k % 2 ^ 32) ≡ some cs
      → text_at fuel (access.memory (fill g w c out).sink) (args k % 2 ^ 32) ≡ some cs
  unfolding fill f
  fill-text zero c k cs out h e = e
  fill-text (suc w) c k cs out h e =
      fill-text w c k cs (f g c out) (kept.handing c out.sink h) (kept.text_kept c k out.sink h ∙ e)

  pub put_text-From :
      (flags : Flags) (width k : ℕ) (out : Out S)
      → Holds out.sink
      → (o : Out S) × (put_text g access fuel args flags width (args k % 2 ^ 32) out ≡ some o)
        × From out o
  unfolding put_text
  put_text-From flags width k out h =
      let (cs, e) = kept.text_ends k out.sink h in
      let w : ℕ = rounds (int_minus width (length cs)) in
      let text = emit-From cs out h in
      let spaces = fill-From w 32 out h in
      let filled = From-holds _ _ spaces in
      elim (Bool-cases flags.left) [
        | inl left ↦ (
          fill g w 32 (emit g cs out),
          rw (e, put_text, left) (ap (Option.map (fill g w 32)) (print_text-From k cs out h e)),
          and_then _ _ _ text (fill-From w 32 _ (From-holds _ _ text)),
        )
        | inr right ↦ (
          emit g cs (fill g w 32 out),
          rw (e, put_text, right) (print_text-From k cs _ filled (fill-text w 32 k cs out h e)),
          and_then _ _ _ spaces (emit-From cs _ filled),
        )
      ]
