-- ===== src/Store/Range.antt =====
-- store/store.go, `pipeData`: the range that a request asks for, clamped to the content, and the
-- bytes that the pipe carries. The pipe itself is the text that its reader receives.
pub mod Slice
use oscdn.Base.{
  Option, none, some, [], if◌then◌else◌, take, drop, Bytes, ℤ, pos, pos_part, ◌-ℤ◌, ltb_ℤ, leb_ℤ,
}
use oscdn.Store.Common.{ContentRange}

-- The clamping of `contentRange`, assignment by assignment.
unfoldable pub clamp_start : ContentRange → ℤ → ContentRange
clamp_start r size =
    let low : ℤ = if ltb_ℤ r.start (pos 0) then pos 0 else r.start in
    record r { start = if ltb_ℤ size low then size else low }

unfoldable pub clamp_end : ContentRange → ℤ → ContentRange
clamp_end r size =
    if ltb_ℤ r.end (pos 0)
    then record r { end = size }
    else (let high : ℤ = if ltb_ℤ size r.end then size else r.end in
        record r { end = if ltb_ℤ high r.start then r.start else high })

unfoldable pub clamp_range : ContentRange → ℤ → ContentRange
clamp_range r size = clamp_end (clamp_start r size) size

-- The bytes of the body from `Seek` on, cut by `LimitReader`; with no range, the whole body. The
-- file is read to its end.
unfoldable pub read_range : Option ContentRange → Bytes → Bytes
read_range none body = body
read_range (some r) body =
    let rest = if ltb_ℤ (pos 0) r.start then drop (pos_part r.start) body else body in
    if leb_ℤ (pos 0) r.end then take (pos_part (r.end -ℤ r.start)) rest else rest
