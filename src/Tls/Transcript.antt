-- ===== src/Tls/Transcript.antt =====
-- src/tls/transcript.rs: the messages of a handshake in order, and their hash. The buffer is the list
-- of the bytes that it holds; what stands behind them is never read.
use iso_light_k.Common.{ℕ, ◌+◌, ltb, if◌then◌else◌, List, ◌++◌, length, Result, ok, err}
use iso_light_k.Tls.{TlsError, transcript_overflow, transcript_buf_len}

unfoldable pub update : List ℕ → List ℕ → Result TlsError (List ℕ)
update transcript msg =
    if ltb transcript_buf_len (length transcript + length msg)
    then err transcript_overflow
    else ok (transcript ++ msg)

abbrev pub snapshot : (List ℕ → List ℕ) → List ℕ → List ℕ
snapshot sha256 transcript = sha256 transcript
