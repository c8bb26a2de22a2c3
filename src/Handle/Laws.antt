-- ===== src/Handle/Laws.antt =====
-- What `emit` of source/HandleEmitter.cpp writes.
use dynalog.Base.{
  ℕ, zero, suc, ◌-◌, ◌<◌, ◌≤◌, ◌≡◌, refl, sym, ◌∙◌, ap, true, false, not, List, [], ◌∷◌, ◌++◌, ltb,
  length, take, replicate, append-nil, append_assoc, length-append, Bool-cases, inl, inr, arith,
  subst,
}
use dynalog.Base.Int.{ℤ, pos, eqb_ℤ}
use dynalog.Handle.{Text, ArrayStream, reset, insert, insert_all, write, emit, emit_all}

-- The texts one after the other.
abbrev pub concat : List Text → Text
concat [] = []
concat (text ∷ texts) = text ++ concat texts

-- The line that a message is.
abbrev pub line : List Text → Text
line message = concat message ++ 10 ∷ []

length-take_le : (n : ℕ) (xs : Text) → n ≤ length xs → length (take n xs) ≡ n
length-take_le zero xs h = refl
length-take_le (suc n) [] h = absurd (omega arith)
length-take_le (suc n) (x ∷ xs) h = ap suc (length-take_le n xs (omega arith))

take_all : (n : ℕ) (xs : Text) → length xs ≤ n → take n xs ≡ xs
take_all zero [] h = refl
take_all zero (x ∷ xs) h = absurd (omega arith)
take_all (suc n) [] h = refl
take_all (suc n) (x ∷ xs) h = ap (λ ys. x ∷ ys) (take_all n xs (omega arith))

take-append :
    (n : ℕ) (xs ys : Text) → length xs ≤ n → take n (xs ++ ys) ≡ xs ++ take (n - length xs) ys
take-append n [] ys h = ap (λ k. take k ys) (omega arith)
take-append zero (x ∷ xs) ys h = absurd (omega arith)
take-append (suc n) (x ∷ xs) ys h =
    ap (λ zs. x ∷ zs) (take-append n xs ys (omega arith) ∙ ap (λ k. xs ++ take k ys) (omega arith))

take-append_short : (n : ℕ) (xs ys : Text) → n ≤ length xs → take n (xs ++ ys) ≡ take n xs
take-append_short zero [] ys h = refl
take-append_short zero (x ∷ xs) ys h = refl
take-append_short (suc n) [] ys h = absurd (omega arith)
take-append_short (suc n) (x ∷ xs) ys h =
    ap (λ zs. x ∷ zs) (take-append_short n xs ys (omega arith))

-- A stream that took a text so far: all of it, or what fits, and then it is bad.
pub record Took (size : ℕ) (text : Text) (stream : ArrayStream) : Type 0 where
  pub kept : stream.formatted ≡ take size text
  pub state : stream.bad ≡ ltb size (length text)

insert-Took :
    (size : ℕ) (text more : Text) (stream : ArrayStream)
    → Took size text stream
    → Took size (text ++ more) (insert size more stream)
unfolding insert
insert-Took size text more stream t = elim (Bool-cases (ltb size (length text))) [
  | inl e ↦
      let bad = t.state ∙ e in
      let l = length-append text more in
      rw bad (record {
        kept = t.kept ∙ sym (take-append_short size text more (ground (arith, e)));
        state = ground (arith, e, l);
      })
  | inr e ↦
      let bad = t.state ∙ e in
      let all = t.kept ∙ take_all size text (ground (arith, e)) in
      let l = length-append text more in
      rw bad (record {
        kept =
            ap (λ f. f ++ take (size - length f) more) all
            ∙ sym (take-append size text more (ground (arith, e)));
        state = ap (λ f. ltb (size - length f) (length more)) all ∙ ground (arith, e, l);
      })
]

insert_all-Took :
    (size : ℕ) (text : Text) (texts : List Text) (stream : ArrayStream)
    → Took size text stream
    → Took size (text ++ concat texts) (insert_all size texts stream)
unfolding insert_all
insert_all-Took size text [] stream t = subst (λ x. Took size x stream) (sym (append-nil text)) t
insert_all-Took size text (more ∷ texts) stream t =
    subst (λ x. Took size x (insert_all size texts (insert size more stream)))
      (append_assoc text more (concat texts))
      (insert_all-Took size (text ++ more) texts (insert size more stream)
        (insert-Took size text more stream t))

insert-bad :
    (size : ℕ) (text : Text) (stream : ArrayStream)
    → stream.bad ≡ true
    → insert size text stream ≡ stream
unfolding insert
insert-bad size text stream e = rw e refl

insert_all-bad :
    (size : ℕ) (texts : List Text) (stream : ArrayStream)
    → stream.bad ≡ true
    → insert_all size texts stream ≡ stream
unfolding insert_all
insert_all-bad size [] stream e = refl
insert_all-bad size (text ∷ texts) stream e =
    ap (insert_all size texts) (insert-bad size text stream e) ∙ insert_all-bad size texts stream e

-- On a stream in the good state, a message hands its line to the system call, cut off after the size
-- of the buffer, and leaves the stream bad exactly if the line was longer; on a bad one it hands over
-- nothing, and the stream stays bad. It warns exactly if the call does not take all that it was handed.
pub emit-line :
    (write_call : Text → ℤ) (size : ℕ) (message : List Text) (stream : ArrayStream)
    → let outcome = emit write_call size message stream in
      (stream.bad ≡ false
        → (outcome.sent ≡ take size (line message))
          × (outcome.stream.bad ≡ ltb size (length (line message))))
      × (stream.bad ≡ true → (outcome.sent ≡ []) × (outcome.stream.bad ≡ true))
      × (outcome.warned ≡ not (eqb_ℤ (pos (length outcome.sent)) (write_call outcome.sent)))
unfolding emit write reset
emit-line write_call size message stream = (
  λ e.
      let t = insert-Took size (concat message) (10 ∷ []) _ (
        insert_all-Took size [] message (reset stream)
          (record { kept = sym (take_all size [] (omega arith)); state = e ∙ ground arith })) in
      (t.kept, t.state),
  λ e.
      let same = insert_all-bad size message (reset stream) e in
      let last = ap (insert size (10 ∷ [])) same ∙ insert-bad size (10 ∷ []) (reset stream) e in
      (ap (λ s. s.formatted) last, ap (λ s. s.bad) last ∙ e),
  refl,
)

lost :
    (write_call : Text → ℤ) (size : ℕ) (messages : List (List Text)) (stream : ArrayStream)
    → stream.bad ≡ true
    → emit_all write_call size messages stream ≡ replicate (length messages) []
unfolding emit_all
lost write_call size [] stream e = refl
lost write_call size (message ∷ messages) stream e =
    let h = (emit-line write_call size message stream).1 e in
    ap (λ s. s ∷ emit_all write_call size messages (emit write_call size message stream).stream) h.0
    ∙ ap (λ r. [] ∷ r) (lost write_call size messages _ h.1)

-- After a message whose line is longer than the buffer, a thread's later messages, of any length, are
-- lost: the system call is handed the beginning of that line, and then nothing for each of them.
pub emit_all_lost :
    (write_call : Text → ℤ) (size : ℕ) (message : List Text) (messages : List (List Text))
    (stream : ArrayStream)
    → stream.bad ≡ false
    → size < length (line message)
    → emit_all write_call size (message ∷ messages) stream
      ≡ take size (line message) ∷ replicate (length messages) []
unfolding emit_all
emit_all_lost write_call size message messages stream e h =
    let first = (emit-line write_call size message stream).0 e in
    let bad : (emit write_call size message stream).stream.bad ≡ true = first.1 ∙ ground arith in
    ap (λ s. s ∷ emit_all write_call size messages (emit write_call size message stream).stream)
      first.0
    ∙ ap (λ r. take size (line message) ∷ r) (lost write_call size messages _ bad)
