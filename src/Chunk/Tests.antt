-- ===== src/Chunk/Tests.antt =====
-- Two chunks in three segments, with a hash that depends on the length of the data.
use openwrt_helloworld.Prelude.{
  ℕ, zero, suc, ◌+◌, ◌%◌, ◌^◌, ◌<◌, refl, arith, List, [], ◌∷◌, ◌++◌, length, take, drop, replicate,
  length-replicate, IsBytes,
}
use openwrt_helloworld.Chunk.{Settings, chunk_hash, ss_gen_hash, ss_check_hash, Chunk, read_be16}
use openwrt_helloworld.Chunk.Stream.{consume}
use openwrt_helloworld.Chunk.Refine.{Delivers, ss_check_hash-consume}
use openwrt_helloworld.Chunk.RoundTrip.{
  chunks, concat, count, receive, new_chunk, IsSent, IsDigest, receive-chunks,
}

abbrev toy : Settings
toy = record {
  hmac = λ key bytes. replicate 20 ((length key + length bytes) % 2 ^ 8);
  iv = 1 ∷ 2 ∷ [];
  junk = 170;
  capacity = 16;
}

replicate-IsBytes : (n b : ℕ) → b < 256 → IsBytes (replicate n b)
replicate-IsBytes zero b h = tt
replicate-IsBytes (suc n) b h = (h, replicate-IsBytes n b h)

toy-IsDigest : IsDigest toy
toy-IsDigest key bytes = (
  length-replicate 20 ((length key + length bytes) % 2 ^ 8),
  replicate-IsBytes 20 ((length key + length bytes) % 2 ^ 8) (omega arith),
)

abbrev datas : List (List ℕ)
datas = (104 ∷ 105 ∷ []) ∷ (33 ∷ []) ∷ []

abbrev stream : List ℕ
stream = 0 ∷ 2 ∷ (replicate 10 8 ++ (104 ∷ 105 ∷ 0 ∷ 1 ∷ (replicate 10 7 ++ (33 ∷ []))))

abbrev segments : List (List ℕ)
segments = take 1 stream ∷ take 15 (drop 1 stream) ∷ drop 16 stream ∷ []

receive-chunks_example :
    IsSent (receive toy (9 ∷ []) new_chunk segments) (concat datas) (count 0 datas)
unfolding chunks ss_gen_hash chunk_hash concat
receive-chunks_example =
    receive-chunks toy (9 ∷ []) datas segments (omega arith) toy-IsDigest
      (omega arith, (omega arith, tt)) refl

-- A chunk whose first three bytes have come.
abbrev begun : Chunk
begun = record { idx = 3; len = 2; counter = 0; buf = 0 ∷ 2 ∷ 8 ∷ replicate 13 170 }

ss_check_hash-consume_example :
    Delivers
      (ss_check_hash toy (8 ∷ 8 ∷ 1 ∷ 77 ∷ []) 3 begun)
      (consume toy (0 ∷ 2 ∷ 8 ∷ []) 0 (8 ∷ 8 ∷ 1 ∷ []))
unfolding read_be16
ss_check_hash-consume_example =
    ss_check_hash-consume toy (8 ∷ 8 ∷ 1 ∷ 77 ∷ []) 3 begun (0 ∷ 2 ∷ 8 ∷ []) 0 (omega arith)
      (omega arith) (refl, refl, refl, omega arith, λ k. (refl, omega arith))
