-- ===== src/Llm/Assembler/Tests.antt =====
-- The block assembler (src/ftre_agent_core/llm/block_assembler.py) on a concrete stream.
use ftre_agent_core.Prelude.{ℕ, ◌≡◌, refl, true, false, none, some, List, [], ◌∷◌, map}
use ftre_agent_core.Json.{end}
use ftre_agent_core.Llm.{Chunk, block_start, text_delta, block_end, finish_chunk}
use ftre_agent_core.Llm.Assembler.{Assembler, ok, text_block, sorted, feed_all, init, validate}
use ftre_agent_core.Llm.Assembler.Order.{has, key_of, count_from, validated_stream}

abbrev hello : List Chunk
hello =
    block_start 0 "text"
    ∷ text_delta 0 "hel"
    ∷ text_delta 0 "lo"
    ∷ block_end 0 end
    ∷ finish_chunk (record { kind = "stop"; failure = none; response_metadata = end })
    ∷ []

abbrev assembled : Assembler
assembled = record {
  opened = [];
  next_index = 1;
  closed = (0, text_block "hello") ∷ [];
  usage = none;
  finish = some (record { kind = "stop"; failure = none; response_metadata = end });
  finished = true;
  pending = [];
}

hello-fed : feed_all init hello ≡ ok assembled
unfolding feed_all
hello-fed = refl

assembled-valid : validate assembled ≡ ok tt
unfolding validate
assembled-valid = refl

validated_stream_example :
    (assembled.finished ≡ true)
    × ((i : ℕ) → has i assembled.opened ≡ false)
    × (map key_of (sorted assembled.closed) ≡ count_from 0 assembled.next_index)
validated_stream_example = validated_stream hello assembled hello-fed assembled-valid
