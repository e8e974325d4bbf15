-- ===== src/Sha256/Tests.antt =====
-- Runs of the model of sha256.c on the published example and on concrete inputs.
use bittorrent_implementatio.Prelude.{◌≡◌, refl, arith, ◌++◌, [], ◌∷◌, replicate}
use bittorrent_implementatio.Sha256.{
  Sha, sha256_compute_data_init, sha256_calculate_chunk, compress, sha256_update, sha256_finalize,
  sha256_output_hex, finalize_pad, put_size,
}
use bittorrent_implementatio.Sha256.Spec.{digest}
use bittorrent_implementatio.Sha256.Stream.{Holds, init-Holds, sha256_update-Holds}
use bittorrent_implementatio.Sha256.Finalize.{sha256_finalize-digest}
use bittorrent_implementatio.Sha256.Digest.{update_all, join, hex_digest, sha256_output_hex-digest}

-- The state as a caller finds it, with whatever the buffer held.
abbrev blank : Sha
blank = record { data_size = 7; hcomps = []; last_chunk = replicate 64 0xaa; chunk_size = 3 }

digest_abc :
    sha256_output_hex
      (sha256_finalize (sha256_update (sha256_compute_data_init blank) (97 ∷ 98 ∷ 99 ∷ [])))
    ≡ 98 ∷ 97 ∷ 55 ∷ 56 ∷ 49 ∷ 54 ∷ 98 ∷ 102 ∷ 56 ∷ 102 ∷ 48 ∷ 49 ∷ 99 ∷ 102 ∷ 101 ∷ 97 ∷ 52 ∷ 49
      ∷ 52 ∷ 49 ∷ 52 ∷ 48 ∷ 100 ∷ 101 ∷ 53 ∷ 100 ∷ 97 ∷ 101 ∷ 50 ∷ 50 ∷ 50 ∷ 51 ∷ 98 ∷ 48 ∷ 48 ∷ 51
      ∷ 54 ∷ 49 ∷ 97 ∷ 51 ∷ 57 ∷ 54 ∷ 49 ∷ 55 ∷ 55 ∷ 97 ∷ 57 ∷ 99 ∷ 98 ∷ 52 ∷ 49 ∷ 48 ∷ 102 ∷ 102
      ∷ 54 ∷ 49 ∷ 102 ∷ 50 ∷ 48 ∷ 48 ∷ 49 ∷ 53 ∷ 97 ∷ 100 ∷ []
unfolding sha256_output_hex sha256_finalize sha256_update sha256_compute_data_init compress
    sha256_calculate_chunk finalize_pad put_size
digest_abc = refl

-- A state of the message that was read so far.
abbrev started : Sha
started = sha256_compute_data_init blank

sha256_update-Holds_example : Holds (sha256_update started (97 ∷ [])) ([] ++ (97 ∷ []))
sha256_update-Holds_example =
    sha256_update-Holds started [] (97 ∷ []) (init-Holds blank refl) (omega arith)

sha256_finalize-digest_example : (sha256_finalize started).hcomps ≡ digest []
sha256_finalize-digest_example = sha256_finalize-digest started [] (init-Holds blank refl)

sha256_output_hex-digest_example :
    sha256_output_hex (
      sha256_finalize
        (update_all (sha256_compute_data_init blank) ((97 ∷ []) ∷ (98 ∷ 99 ∷ []) ∷ [])))
    ≡ hex_digest (join ((97 ∷ []) ∷ (98 ∷ 99 ∷ []) ∷ []))
sha256_output_hex-digest_example =
    sha256_output_hex-digest blank ((97 ∷ []) ∷ (98 ∷ 99 ∷ []) ∷ []) refl
      (omega arith, (omega arith, tt))
