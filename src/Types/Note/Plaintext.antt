-- ===== src/Types/Note/Plaintext.antt =====
-- Printing and parsing the note plaintext of crates/noirnet-types/src/note.rs.
use noirnet.Prelude.{
  ◌≡◌, ap, inl, inr, false, some, ◌++◌, arith, ltb, ltb-false, Bool-cases, length, take, drop,
  length-append, length-take, Bytes, IsBytes, to_le_bytes, from_le_bytes-to_le_bytes,
  length-to_le_bytes,
}
use mathlib.Core.List.{append_assoc}
use noirnet.Prelude.{
  slice, slice-append, take-add, drop-add, length-drop, All-take, All-drop,
  to_le_bytes-from_le_bytes, take-append_eq,
}
use noirnet.Types.Note.{Note, to_plaintext, from_plaintext, IsNote}

module _ (n : Note) (w : IsNote n) (rest : Bytes) where
  length-prefix : length (n.diversifier ++ to_le_bytes 8 n.value) ≡ 19
  length-prefix = omega (
    arith,
    length-append n.diversifier (to_le_bytes 8 n.value),
    length-to_le_bytes 8 n.value,
    w.diversifier_length,
  )

  diversifier_slice : slice 0 11 (to_plaintext n ++ rest) ≡ n.diversifier
  unfolding to_plaintext
  diversifier_slice = rw append_assoc (take-append_eq 11 n.diversifier _ w.diversifier_length)

  value_slice : slice 11 19 (to_plaintext n ++ rest) ≡ to_le_bytes 8 n.value
  unfolding to_plaintext
  value_slice = simp append_assoc (
      slice-append 11 19 n.diversifier (to_le_bytes 8 n.value) (n.rcm ++ (n.rho ++ rest))
        w.diversifier_length (omega (arith, length-to_le_bytes 8 n.value)))

  rcm_slice : slice 19 51 (to_plaintext n ++ rest) ≡ n.rcm
  unfolding to_plaintext
  rcm_slice = simp append_assoc (
      simp append_assoc at (
        slice-append 19 51 (n.diversifier ++ to_le_bytes 8 n.value) n.rcm (n.rho ++ rest)
          length-prefix (omega (arith, w.rcm_length))))

  rho_slice : slice 51 83 (to_plaintext n ++ rest) ≡ n.rho
  unfolding to_plaintext
  rho_slice = simp append_assoc (
      simp append_assoc at (
        slice-append 51 83 ((n.diversifier ++ to_le_bytes 8 n.value) ++ n.rcm) n.rho rest
          (omega (
            arith,
            length-append (n.diversifier ++ to_le_bytes 8 n.value) n.rcm,
            length-prefix,
            w.rcm_length,
          ))
          (omega (arith, w.rho_length))))

  long_enough : ltb (length (to_plaintext n ++ rest)) 83 ≡ false
  unfolding to_plaintext
  long_enough = ground (
    arith,
    w.rcm_length,
    w.rho_length,
    w.diversifier_length,
    length-to_le_bytes 8 n.value,
    length-append n.rcm n.rho,
    length-append (to_le_bytes 8 n.value) (n.rcm ++ n.rho),
    length-append n.diversifier (to_le_bytes 8 n.value ++ (n.rcm ++ n.rho)),
    length-append (n.diversifier ++ (to_le_bytes 8 n.value ++ (n.rcm ++ n.rho))) rest,
  )

  -- Parsing the plaintext of a note whose arrays have their lengths and whose value fits 64 bits,
  -- with anything behind it, and with the key of the note passed in, gives back the note.
  pub from_plaintext-to_plaintext : from_plaintext (to_plaintext n ++ rest) n.pk_d ≡ some n
  unfolding from_plaintext
  from_plaintext-to_plaintext =
      rw (long_enough, value_slice, rcm_slice, rho_slice, diversifier_slice)
        (ap (λ v. some (record n { value = v }))
          (from_le_bytes-to_le_bytes 8 n.value (omega (arith, w.value_u64))))

module _ (bytes : Bytes) where
  slices-join :
      take 83 bytes
      ≡ slice 0 11 bytes ++ (slice 11 19 bytes ++ (slice 19 51 bytes ++ slice 51 83 bytes))
  slices-join = simp (
    take-add 11 72 bytes,
    take-add 8 64 (drop 11 bytes),
    ← drop-add 11 8 bytes,
    take-add 32 32 (drop 19 bytes),
    ← drop-add 19 32 bytes,
  )

  -- What is parsed from a string of bytes prints as its first 83 bytes.
  pub to_plaintext-from_plaintext :
      (pk_d : Bytes) (n : Note)
      → IsBytes bytes
      → from_plaintext bytes pk_d ≡ some n
      → to_plaintext n ≡ take 83 bytes
  unfolding from_plaintext to_plaintext
  to_plaintext-from_plaintext pk_d n w h = elim (Bool-cases (ltb (length bytes) 83)) [
    | inl short ↦ cc (rw short at h)
    | inr long ↦ rw slices-join (
        ground (
          arith,
          rw long at h,
          to_le_bytes-from_le_bytes 8 (slice 11 19 bytes)
              (omega
                (arith, length-take 8 (drop 11 bytes), length-drop 11 bytes, ltb-false _ _ long))
              (All-take _ 8 (drop 11 bytes) (All-drop _ 11 bytes w)),
        ))
  ]
