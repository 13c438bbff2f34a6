-- ===== src/Client/Serial/Laws.antt =====
-- What `_read_frame` brings, and a whole exchange.
use modbusgw.Base.{
  ℕ, zero, suc, ◌≤◌, ltb, leb, ◌&&◌, Bool, true, [], ◌∷◌, ◌++◌, Option, some, if_of_true,
  if_of_false, Bool-cases, inl, inr, length, length-append, Bytes, Result, ok, raise, but_last_two,
  ◌≡◌, refl, sym, subst, arith,
}
use modbusgw.Base.Exec.{Exec}
use modbusgw.Base.Exec.Runs.{Ends, Ends-then}
use modbusgw.Messages.Requests.{request_methods}
use modbusgw.Messages.Responses.{response_methods}
use modbusgw.Client.Codecs.{strip_rtu_frame}
use modbusgw.Client.Codecs.Rtu.{strip_rtu_frame-accepts}
use modbusgw.Client.Serial.{
  SerialClient, Port, has_valid_crc, on_port, received, read_loop, read_frame,
}

-- What the loop takes for a frame.
abbrev pub passes : Bytes → Bool
passes buffer = leb 4 (length buffer) && has_valid_crc buffer

pub passes-strip :
    (frame : Bytes)
    → passes frame ≡ true
    → (4 ≤ length frame) × (strip_rtu_frame frame ≡ ok (but_last_two frame))
unfolding has_valid_crc
passes-strip frame h =
    let long : 4 ≤ length frame = ground arith in
    (long, strip_rtu_frame-accepts frame long (ground arith))

module _ {W : Type 0} (port : Port W) where
  -- `read` brings no more than it is asked for.
  abbrev pub Bounded : Type 0
  Bounded = (n : ℕ) (w : W) (chunk : Bytes) → (port.read n w).0 ≡ ok chunk → length chunk ≤ n

  abbrev pub Stripped : Bytes → SerialClient × W → Type 0
  Stripped frame s =
      (4 ≤ length frame) × (length frame ≤ 257) × (strip_rtu_frame frame ≡ ok (but_last_two frame))

  abbrev Reads : Option (Result Bytes) × (SerialClient × W) → Type 0
  Reads = Ends Stripped (λ s. Unit {0})

  received-Reads :
      (later : Bytes → Exec (SerialClient × W) Bytes) (buffer chunk : Bytes) (s : SerialClient × W)
      → length buffer ≤ 256
      → length chunk ≤ 1
      → ((longer : Bytes) → length longer ≤ 256 → Reads (later longer s))
      → Reads (received port later buffer chunk s)
  unfolding received
  received-Reads later buffer [] s h k ih = ih buffer h
  received-Reads later buffer (x ∷ xs) s h k ih =
      let longer = buffer ++ (x ∷ xs) in
      let short : length longer ≤ 257 = omega (arith, length-append buffer (x ∷ xs)) in
      elim (Bool-cases (passes longer)) [
        | inl y ↦
            let (long, strips) = passes-strip longer y in
            subst (λ (m : Exec (SerialClient × W) Bytes). Reads (m s)) (sym (if_of_true _ _ y))
              (long, short, strips)
        | inr n ↦
            subst (λ (m : Exec (SerialClient × W) Bytes). Reads (m s)) (sym (if_of_false _ _ n))
              (elim (Bool-cases (ltb 256 (length longer))) [
                | inl y ↦
                    subst (λ (m : Exec (SerialClient × W) Bytes). Reads (m s))
                      (sym (if_of_true _ _ y)) tt
                | inr more ↦
                    subst (λ (m : Exec (SerialClient × W) Bytes). Reads (m s))
                      (sym (if_of_false _ _ more)) (ih longer (ground arith))
              ])
      ]

  read_loop-Reads :
      Bounded
      → (n : ℕ) (buffer : Bytes) (s : SerialClient × W) → length buffer ≤ 256
      → Reads (read_loop port n buffer s)
  unfolding read_loop
  read_loop-Reads b zero buffer s h = tt
  read_loop-Reads b (suc n) buffer s h =
      Ends-then (λ chunk s'. length chunk ≤ 1) Stripped (λ s'. Unit {0}) (λ s'. Unit {0})
        (on_port port (port.read 1)) _ s (short b s)
        (λ chunk s' k.
          received-Reads (λ longer. read_loop port n longer) buffer chunk s' h k
            (λ longer g. read_loop-Reads b n longer s' g))
        (λ s' g. tt)
    where
      short :
          Bounded
          → (s : SerialClient × W)
          → Ends (λ chunk s'. length chunk ≤ 1) (λ s'. Unit {0}) (on_port port (port.read 1) s)
      short b (c, w) = go (port.read 1 w).0 refl
        where
          go :
              (r : Result Bytes)
              → (port.read 1 w).0 ≡ r
              → Ends
                  (λ (chunk : Bytes) (s' : SerialClient × W). length chunk ≤ 1)
                  (λ s'. Unit {0})
                  (some r, (c, (port.read 1 w).1))
          go (ok chunk) e = b 1 w chunk e
          go (raise x) e = tt

  -- `_read_frame` ends with the clock: it raises, or returns four to 257 bytes that
  -- `strip_rtu_frame` accepts, if no read brings more than the one byte that it is asked for.
  pub read_frame-Stripped :
      (s : SerialClient × W) → Bounded → Ends Stripped (λ s'. Unit {0}) (read_frame port s)
  unfolding read_frame
  read_frame-Stripped (c, w) b = read_loop-Reads b (port.rounds w) [] (c, w) (omega arith)
