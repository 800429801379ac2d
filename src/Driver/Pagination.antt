-- ===== src/Driver/Pagination.antt =====
-- driver/pagination.go: the opaque cursors. The JSON and base64 text of a cursor is the library's:
-- `Codec` is the pair of functions between a payload and its text.
use goncordia.Prelude.{
  ◌*◌, ◌≡◌, ℤ, sub_ℕ, pos, eqb_ℤ, String, ◌=s=◌, text_ltb, Bool, ◌&&◌, ◌||◌, not, ltb, ◌==◌,
  if◌then◌else◌, Option, none, some,
}
use goncordia.Time.{Time, add}
use goncordia.Driver.{JobRow, QueueRow, Result, ok, err, invalid_cursor}

pub record JobCursorV1 : Type 0 where
  pub version : ℤ
  pub created_at : ℤ
  pub id : String

pub record QueueCursorV1 : Type 0 where
  pub version : ℤ
  pub name : String

-- json.Marshal and base64 together, and back; `none` is an error of either.
pub record Codec (A : Type 0) : Type 0 where
  pub encode : A → String
  pub decode : String → Option A
  pub round_trip : (a : A) → decode (encode a) ≡ some a

-- 1970-01-01, in nanoseconds since the zero time.
abbrev pub unix_epoch : Time
unix_epoch = 62135596800 * 1000000000

-- t.UnixNano() and time.Unix(0, n)
abbrev pub unix_nano : Time → ℤ
unix_nano t = sub_ℕ t unix_epoch

abbrev pub from_unix_nano : ℤ → Time
from_unix_nano n = add unix_epoch n

module _ (codec : Codec JobCursorV1) where
  unfoldable pub encode_job_cursor : JobRow → String
  encode_job_cursor row =
      codec.encode (record { version = pos 1; created_at = unix_nano row.created_at; id = row.id })

  unfoldable pub decode_job_cursor : String → Result (Time × String)
  decode_job_cursor cursor = elim (codec.decode cursor) [
    | none ↦ err invalid_cursor
    | some decoded ↦
        if not (eqb_ℤ decoded.version (pos 1))
          || eqb_ℤ decoded.created_at (pos 0)
          || (decoded.id =s= "")
        then err invalid_cursor
        else ok (from_unix_nano decoded.created_at, decoded.id)
  ]

module _ (codec : Codec QueueCursorV1) where
  unfoldable pub encode_queue_cursor : QueueRow → String
  encode_queue_cursor row = codec.encode (record { version = pos 1; name = row.name })

  unfoldable pub decode_queue_cursor : String → Result String
  decode_queue_cursor cursor = elim (codec.decode cursor) [
    | none ↦ err invalid_cursor
    | some decoded ↦
        if not (eqb_ℤ decoded.version (pos 1)) || (decoded.name =s= "")
        then err invalid_cursor
        else ok decoded.name
  ]

-- The row stands after the cursor in the order created_at DESC, id DESC.
unfoldable pub job_follows_cursor : JobRow → Time → String → Bool
job_follows_cursor row created_at id =
    ltb row.created_at created_at || row.created_at == created_at && text_ltb row.id id
