-- ===== src/Transport/ResponseBuffer.antt =====
-- responseBuffer of internal/transportutil/buffer.go: a response is read at once, and is then there
-- for partial reads.
use go_tpm.Base.{ℕ, Option, none, some, List, [], ◌∷◌, take, drop}
use go_tpm.Mu.Bytes.{Bytes}

-- What the reader below gives for the reads to come: at most maxResponseSize bytes, or an error.
-- After these it is at its end.
pub data Source : Type 0 where
  response : Bytes → Source
  failure : ℕ → Source

pub data ReadError : Type 0 where
  source_failed : ℕ → ReadError
  end_of_file : ReadError

pub record ResponseBuffer : Type 0 where
  pub rsp : Option Bytes
  pub source : List Source

-- The bytes that Read has stored, and its error.
abbrev pub Got : Type 0
Got = Bytes × Option ReadError

-- BufferResponses
abbrev pub buffer_responses : List Source → ResponseBuffer
buffer_responses source = record { rsp = none; source = source }

-- The loop of Read from a response that is at its end: the next response that is not empty is read,
-- and gives up to n bytes. A bytes.Reader is at its end only when it is read again.
unfoldable pub read_next : ℕ → List Source → ResponseBuffer × Got
read_next n [] = (record { rsp = none; source = [] }, ([], some end_of_file))
read_next n (failure e ∷ source) =
    (record { rsp = none; source = source }, ([], some (source_failed e)))
read_next n (response [] ∷ source) = read_next n source
read_next n (response (x ∷ xs) ∷ source) =
    (record { rsp = some (drop n (x ∷ xs)); source = source }, (take n (x ∷ xs), none))

abbrev pub read_from : ℕ → Option Bytes → List Source → ResponseBuffer × Got
read_from n (some (x ∷ xs)) source =
    (record { rsp = some (drop n (x ∷ xs)); source = source }, (take n (x ∷ xs), none))
read_from n _ source = read_next n source

-- Read into a slice of n bytes.
unfoldable pub read_response : ResponseBuffer → ℕ → ResponseBuffer × Got
unfolding read_next
read_response b n = read_from n b.rsp b.source

-- Reads one after the other: the bytes of each, and the errors.
unfoldable pub read_responses : ResponseBuffer → List ℕ → ResponseBuffer × List Got
read_responses b [] = (b, [])
read_responses b (n ∷ ns) =
    let (b', g) = read_response b n in let (b'', gs) = read_responses b' ns in (b'', g ∷ gs)
