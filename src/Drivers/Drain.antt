-- ===== src/Drivers/Drain.antt =====
-- `drain_worker` of board/src/stream.c: the packs of one encoded frame become one access unit.
use hispark_soc_china.Prelude.{
  ℕ, ◌+◌, ◌*◌, Option, none, some, List, [], ◌∷◌, ◌++◌, length, drop, ltb, ◌==◌, if◌then◌else◌,
}

-- STREAM_MAX_PACKS
abbrev pub stream_max_packs : ℕ
stream_max_packs = 64

-- STREAM_AU_CAP
abbrev pub stream_au_cap : ℕ
stream_au_cap = 2 * 1024 * 1024

-- A pack: its `len` bytes at `addr`, and its `offset`.
pub record Pack : Type 0 where
  pub addr : List ℕ
  pub offset : ℕ

-- The bytes that are copied; none where `offset` is not below `len`.
unfoldable pub pack_bytes : Pack → List ℕ
pack_bytes p = drop p.offset p.addr

-- The bytes in the array when the loop has ended, `used` of them before; none if a pack did not fit.
unfoldable pub gather : ℕ → List ℕ → List Pack → List ℕ
unfolding pack_bytes
gather cap unit [] = unit
gather cap unit (p ∷ ps) =
    let rest = gather cap (unit ++ pack_bytes p) ps in
    if ltb cap (length unit + length (pack_bytes p)) then [] else rest

-- One round: what `ss_mpi_venc_query_status` (`none` if it fails) and `ss_mpi_venc_get_stream` answer.
pub record DrainAnswers : Type 0 where
  pub cur_packs : Option ℕ
  pub get_stream : Option (List Pack)

-- What a round does to the encoder and the server.
pub data DrainCall : Type 0 where
  fetched released : DrainCall
  published : List ℕ → DrainCall

unfoldable pub take_frame : List Pack → List DrainCall
unfolding gather
take_frame packs =
    let unit = gather stream_au_cap [] packs in
    if ltb 0 (length unit)
    then fetched ∷ published unit ∷ released ∷ []
    else fetched ∷ released ∷ []

unfoldable pub fetch : Option (List Pack) → List DrainCall
unfolding take_frame
fetch none = []
fetch (some packs) = take_frame packs

unfoldable pub status_round : Option ℕ → Option (List Pack) → List DrainCall
unfolding fetch
status_round none packs = []
status_round (some n) packs =
    if n == 0 then [] else if ltb stream_max_packs n then [] else fetch packs

-- One call of the list for each round that finds `stop` unset.
unfoldable pub drain_worker : List DrainAnswers → List DrainCall
unfolding status_round
drain_worker [] = []
drain_worker (a ∷ rounds) = status_round a.cur_packs a.get_stream ++ drain_worker rounds
