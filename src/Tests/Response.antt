-- ===== src/Tests/Response.antt =====
-- Bodies that are read at concrete inputs.
use wrest.Prelude.Result.{ok, err}
use wrest.Prelude.{◌≤◌, List, [], ◌∷◌, some, none, ◌≡◌, arith, length, refl, inr}
use wrest.Response.Chunk.{Read, chunk, race_read, consumed_error, bytes_stream, collect_body}
use wrest.Response.Collect.{stream_bytes, gathered, collect_body-gathered, chunk_after_end}
use wrest.Response.Types.{Response, RawResponse, http_11, from_raw}
use wrest.Tests.Url.{sample_url}
use wrest.WinHttp.Write.{usize_max}

abbrev sample_raw : RawResponse (Unit {0})
sample_raw = record {
  request_handle = 1;
  status = 200;
  version = http_11;
  url = sample_url;
  headers = tt;
}

abbrev sample_response : Response (Unit {0})
sample_response = from_raw sample_raw (some 100)

abbrev first_read : Read
first_read = record { start = 1; end = 2; fired = some 101; result = ok (some (1 ∷ 2 ∷ [])) }

abbrev second_read : Read
second_read = record { start = 2; end = 5; fired = some 101; result = ok (some (3 ∷ [])) }

abbrev end_read : Read
end_read = record { start = 5; end = 6; fired = none; result = ok none }

abbrev sample_reads : List Read
sample_reads = first_read ∷ second_read ∷ end_read ∷ []

sample_fits : length (stream_bytes (bytes_stream sample_response sample_reads).0) ≤ usize_max
unfolding bytes_stream wrest.Response.Chunk.chunk from_raw wrest.Response.Chunk.race_read
    wrest.Response.Chunk.settle_read
sample_fits = omega arith

collect_body-gathered_example :
    (collect_body sample_response sample_reads).1
    ≡ gathered [] (bytes_stream sample_response sample_reads)
collect_body-gathered_example = collect_body-gathered sample_reads sample_response sample_fits

-- The timer is found fired before the read is done.
abbrev late_read : Read
late_read = record { start = 5; end = 120; fired = some 110; result = ok (some (4 ∷ [])) }

late_times_out : race_read sample_response.deadline late_read ≡ none
unfolding race_read from_raw
late_times_out = refl

chunk_after_end_example :
    chunk (chunk sample_response late_read).0 end_read
    ≡ ((chunk sample_response late_read).0, err consumed_error)
chunk_after_end_example = chunk_after_end sample_response late_read end_read (inr late_times_out)
