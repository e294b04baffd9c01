-- ===== src/Tests/TransferTests.antt =====
-- The theorems about crates/noirnet-wallet/src/builder.rs and keys.rs at concrete inputs.
use noirnet.Prelude.{
  ℕ, ◌+◌, ◌≡◌, refl, sym, ap, ◌∙◌, false, Option, none, some, [], ◌∷◌, arith, unwrap_or, length,
  replicate, length-append, ok, is_ok, Bytes, to_le_bytes,
}
use noirnet.Prelude.Maps.{lookup}
use noirnet.Types.Transaction.{Transaction, validate_format, now_obfuscated}
use noirnet.Zk.{Nova}
use noirnet.Mempool.{PrivateMempool, submit}
use noirnet.Wallet.Keys.{new, IsTagged, new-none}
use noirnet.Wallet.Builder.{Draws, build_transfer}
use noirnet.Wallet.Builder.Transfers.{build_transfer-conflict}
use noirnet.Tests.Data.{toy_hash, tx_a}
use noirnet.Tests.CryptoTests.{toy_aead, toy_curve, toy_ed25519}

toy_aead-IsTagged : IsTagged toy_aead
toy_aead-IsTagged key nonce text sealed h =
    ap (λ o. length (unwrap_or o [])) (sym h) ∙ omega (arith, length-append (replicate 16 0) text)

new-none_example :
    new
      (record { hash_password_into = λ password salt. some (replicate 32 1) })
      toy_aead
      (replicate 32 2)
      (replicate 32 3)
      (4 ∷ [])
    ≡ none
new-none_example =
    new-none (record { hash_password_into = λ password salt. some (replicate 32 1) }) toy_aead
      (replicate 32 2) (replicate 32 3) (4 ∷ []) toy_aead-IsTagged refl

abbrev pub toy_nova : Nova ℕ ℕ
toy_nova = record {
  start = λ pp circuit. ok 0;
  prove_step = λ pp circuit snark. ok (snark + 1);
  verify = λ pp steps snark. ok tt;
  serialize = λ snark. ok (snark ∷ []);
  deserialize = λ bytes. ok 1;
}

abbrev draws_a : Draws
draws_a = record {
  out_rcm = replicate 32 1;
  out_rho = replicate 32 2;
  esk = replicate 32 3;
  out_rcv = replicate 32 4;
  spend_rcv = replicate 32 5;
  spend_seed = replicate 32 6;
}

abbrev transfer : ℕ → ℕ → Option Transaction
transfer seed amount =
    build_transfer toy_hash toy_aead toy_curve toy_ed25519 toy_nova 0 draws_a 1_000
      (record { sk = replicate 32 seed })
      (record { diversifier = replicate 11 1; pk_d = replicate 32 2 }) amount 10_000 1_000_000

abbrev transfer_a : Transaction
transfer_a = unwrap_or (transfer 1 500) tx_a

abbrev transfer_b : Transaction
transfer_b = unwrap_or (transfer 2 900) tx_a

abbrev empty_pool : PrivateMempool
empty_pool = record { txs = []; pending_nullifiers = [] }

abbrev toy_serialize : Transaction → Bytes
toy_serialize tx = to_le_bytes 8 (length tx.outputs)

abbrev pool_b : PrivateMempool
pool_b = (submit toy_hash toy_serialize (λ tx. some 300) (λ n. some false) transfer_a empty_pool).0

transfer_a-admitted :
    (submit toy_hash toy_serialize (λ tx. some 300) (λ n. some false) transfer_a empty_pool).1
    ≡ ok tt
unfolding submit lookup validate_format build_transfer now_obfuscated
transfer_a-admitted = refl

build_transfer-conflict_example :
    (is_ok (submit toy_hash toy_serialize (λ tx. some 300) (λ n. some false) transfer_b pool_b).1
      ≡ false)
    × ((submit toy_hash toy_serialize (λ tx. some 300) (λ n. some false) transfer_b pool_b).0
        ≡ pool_b)
build_transfer-conflict_example =
    build_transfer-conflict toy_hash toy_aead toy_curve toy_ed25519 toy_nova 0 toy_serialize
      (λ tx. some 300) (λ n. some false) draws_a draws_a 1_000 1_000
      (record { sk = replicate 32 1 }) (record { sk = replicate 32 2 })
      (record { diversifier = replicate 11 1; pk_d = replicate 32 2 })
      (record { diversifier = replicate 11 1; pk_d = replicate 32 2 }) 500 10_000 1_000_000 900
      10_000 1_000_000 transfer_a transfer_b empty_pool (unfold build_transfer in refl)
      (unfold build_transfer in refl) transfer_a-admitted
