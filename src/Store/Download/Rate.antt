-- ===== src/Store/Download/Rate.antt =====
-- store/store.go: what the copy at a limited rate, `CopyRate`, comes to in a download.
use oscdn.Base.{
  sym, subst, ℕ, ◌*◌, ◌^◌, ◌<◌, ◌≡◌, Bool, true, false, Option, none, some, [], arith, length,
  Bytes, lookup, ℤ, pos, take_of_ge,
}
use oscdn.Ioutil.{Source, copy_rate, limit_reader}
use oscdn.Ioutil.Short.{copy_rate-eof}
use oscdn.Store.Common.{HostConfig}
use oscdn.Store.World.{World, Content}
use oscdn.Store.Download.{Transfer, end_download, is_failed, limited}
use oscdn.Store.Download.Running.{IsRunning}
use oscdn.Store.Download.Complete.{end_download-failed}

abbrev is_some {ℓ} : {A : Type ℓ} → Option A → Bool
is_some none = false
is_some (some x) = true

-- The transfer of the body that the origin sends, with the host's burst and rate, into a body file
-- that takes `room` bytes.
unfoldable pub transfer :
    (ℤ → Source → Source) → HostConfig → ℤ → Source → Option ℕ → Bool → Transfer
transfer leaky_bucket hc size sent room close_fails =
    let c =
      copy_rate leaky_bucket (record { written = []; room = room }) (limit_reader sent size)
        hc.download_burst hc.download_rate in
    record { received = c.sink.written; copy_fails = is_some c.error; close_fails = close_fails }

limit_reader-whole :
    (body : Bytes)
    → limit_reader (record { bytes = body; breaks = false }) (pos (length body))
      ≡ record { bytes = body; breaks = false }
unfolding limit_reader
limit_reader-whole body = ground (arith, take_of_ge (length body) body)

transfer-copy_fails :
    (leaky_bucket : ℤ → Source → Source) (hc : HostConfig) (body : Bytes) (n : ℕ)
    → hc.download_burst ≡ pos n
    → length body < n * 1024
    → n * 1024 < 2 ^ 63
    → (transfer leaky_bucket hc
        (pos (length body))
        (record { bytes = body; breaks = false })
        none
        false).copy_fails
      ≡ true
unfolding transfer
transfer-copy_fails leaky_bucket hc body n burst short small = rw (
  limit_reader-whole body,
  burst,
  copy_rate-eof leaky_bucket [] body n hc.download_rate short small,
)

is_failed-copy :
    (copy_fails close_fails : Bool) (size : ℤ) (written : ℕ)
    → copy_fails ≡ true
    → is_failed copy_fails close_fails size written ≡ true
unfolding is_failed
is_failed-copy copy_fails close_fails size written h = ground arith

-- Where a burst is configured for the origin's host and a content is shorter than it, the content is
-- thrown away although the origin has sent all of it and nothing else has failed: the download leaves
-- nothing at its path, whatever the rate.
pub end_download_burst :
    (leaky_bucket : ℤ → Source → Source) (hc : HostConfig) (w : World) (path key_url : Bytes)
    (file : ℕ) (c : Content) (body : Bytes) (n : ℕ)
    → IsRunning w path key_url file c
    → w.denied path ≡ false
    → c.info.size ≡ pos (length body)
    → hc.download_burst ≡ pos n
    → length body < n * 1024
    → n * 1024 < 2 ^ 63
    → let t =
        transfer leaky_bucket hc c.info.size (record { bytes = body; breaks = false }) none false in
      lookup path (end_download w path key_url file c.info.size t).disk ≡ none
end_download_burst leaky_bucket hc w path key_url file c body n run allowed size burst short small =
    let sent : Source = record { bytes = body; breaks = false } in
    let t = transfer leaky_bucket hc c.info.size sent none false in
    let fails : t.copy_fails ≡ true =
      subst (λ z. (transfer leaky_bucket hc z sent none false).copy_fails ≡ true) (sym size)
        (transfer-copy_fails leaky_bucket hc body n burst short small) in
    (end_download-failed w path key_url file c run t allowed (
      is_failed-copy t.copy_fails t.close_fails c.info.size
        (length (limited c.info.size t.received)) fails)).0
