-- ===== src/Crypto/Commitments/Binding.antt =====
-- What the commitments and nullifiers of crates/noirnet-crypto and the note commitment of
-- crates/noirnet-types/src/note.rs bind.
use noirnet.Prelude.{
  ◌≡◌, sym, ap, ◌∙◌, ◌⊎◌, inl, inr, true, ◌++◌, length, drop, Bytes, bytes_eq→eq, to_le_bytes,
  length-to_le_bytes,
}
use mathlib.Core.List.{append_assoc}
use noirnet.Prelude.{codes, append_cancel, to_le_bytes_injective}
use noirnet.Prelude.Collisions.{Collision, hash-cases}
use noirnet.Types.Note.{Hash32, Note, IsNote, commitment}
use noirnet.Crypto.Commitments.{note_commitment, compute_nullifier, verify_nullifier}

-- What `Note::commitment` hashes.
preimage : Note → Bytes
preimage n =
    codes "NoirNet_note_cm_v1"
    ++ (to_le_bytes 8 n.value ++ (n.rcm ++ (n.rho ++ (n.pk_d ++ n.diversifier))))

commitment_eq : (blake3 : Bytes → Bytes) (n : Note) → commitment blake3 n ≡ blake3 (preimage n)
unfolding commitment preimage
commitment_eq blake3 n = simp append_assoc

module _ (blake3 : Bytes → Bytes) where
  -- Two notes, of arrays with their lengths and values of 64 bits, with the same commitment are the same note, unless they
  -- show a collision of the hash function.
  pub commitment_binding :
      (n m : Note)
      → IsNote n
      → IsNote m
      → length n.pk_d ≡ 32
      → length m.pk_d ≡ 32
      → commitment blake3 n ≡ commitment blake3 m
      → (n ≡ m) ⊎ Collision blake3
  unfolding preimage
  commitment_binding n m w v pn pm e =
      elim (hash-cases blake3 (preimage n) (preimage m)
        (sym (commitment_eq blake3 n) ∙ (e ∙ commitment_eq blake3 m))) [
          | inl same ↦
              let (a, r) =
                append_cancel 8 (to_le_bytes 8 n.value) (to_le_bytes 8 m.value)
                  (n.rcm ++ (n.rho ++ (n.pk_d ++ n.diversifier)))
                  (m.rcm ++ (m.rho ++ (m.pk_d ++ m.diversifier))) (length-to_le_bytes 8 n.value)
                  (length-to_le_bytes 8 m.value) (ap (drop 18) same) in
              let (b, s) =
                append_cancel 32 n.rcm m.rcm (n.rho ++ (n.pk_d ++ n.diversifier))
                  (m.rho ++ (m.pk_d ++ m.diversifier)) w.rcm_length v.rcm_length r in
              let (c, t) =
                append_cancel 32 n.rho m.rho (n.pk_d ++ n.diversifier) (m.pk_d ++ m.diversifier)
                  w.rho_length v.rho_length s in
              let (d, f) = append_cancel 32 n.pk_d m.pk_d n.diversifier m.diversifier pn pm t in
              let z = to_le_bytes_injective 8 n.value m.value w.value_u64 v.value_u64 a in inl cc
          | inr c ↦ inr c
        ]

  -- A nullifier that is verified for two notes and keys, of 32 bytes each, belongs to one key, one rho and one commitment, unless
  -- they show a collision of the hash function.
  pub verify_nullifier_binding :
      (nk nl rho sigma : Bytes) (cm dm nf : Hash32)
      → length nk ≡ 32
      → length nl ≡ 32
      → length rho ≡ 32
      → length sigma ≡ 32
      → verify_nullifier blake3 nk rho cm nf ≡ true
      → verify_nullifier blake3 nl sigma dm nf ≡ true
      → ((nk ≡ nl) × (rho ≡ sigma) × (cm ≡ dm)) ⊎ Collision blake3
  unfolding verify_nullifier compute_nullifier
  verify_nullifier_binding nk nl rho sigma cm dm nf hk hl hr hs e f =
      elim (hash-cases blake3 (codes "NoirNet_Nullifier_v1" ++ (nk ++ (rho ++ cm)))
        (codes "NoirNet_Nullifier_v1" ++ (nl ++ (sigma ++ dm)))
        (bytes_eq→eq _ _ e ∙ sym (bytes_eq→eq _ _ f))) [
          | inl same ↦
              let (a, rest) =
                append_cancel 32 nk nl (rho ++ cm) (sigma ++ dm) hk hl (ap (drop 20) same) in
              let (b, c) = append_cancel 32 rho sigma cm dm hr hs rest in inl (a, b, c)
          | inr c ↦ inr c
        ]

  -- The commitment of commitment.rs and that of note.rs are the same for a note only if its key and its randomness rcm are the
  -- same bytes, or they show a collision of the hash function.
  pub note_commitment-commitment :
      (n : Note)
      → IsNote n
      → length n.pk_d ≡ 32
      → note_commitment blake3 n.value n.pk_d n.rho n.rcm n.diversifier ≡ commitment blake3 n
      → (n.pk_d ≡ n.rcm) ⊎ Collision blake3
  unfolding note_commitment commitment
  note_commitment-commitment n w pn e =
      let swapped : Note = record n { rcm = n.pk_d; pk_d = n.rcm } in
      let wide : IsNote swapped = record {
        value_u64 = w.value_u64;
        rcm_length = pn;
        rho_length = w.rho_length;
        diversifier_length = w.diversifier_length;
      } in
      elim (commitment_binding swapped n wide w w.rcm_length pn e) [
        | inl same ↦ inl (ap (λ (m : Note). m.rcm) same)
        | inr c ↦ inr c
      ]
