-- ===== src/Cdn/Upload/Cut.antt =====
-- A content that is shorter than the upload burst.
use oscdn.Base.{none, some, ℕ, ◌≡◌, [], ◌++◌, ap, Bytes, length, pos, ◌*◌, ◌<◌, ◌^◌}
use oscdn.Base.Http.{Header}
use oscdn.Ioutil.{eof}
use oscdn.Ioutil.Short.{copy_rate-eof}
use oscdn.Store.Get.{complete}
use oscdn.Cdn.Encoder.{Encoder}
use oscdn.Cdn.Handler.{Answer, answer}
use oscdn.Cdn.Upload.{Compression, Client, sent, wire_bytes, sent_copied, source_of, deliver}

-- For an answer with a stored content that is shorter than the burst of the upload, to a client that
-- takes every byte, the copy ends with an error whatever the rate and the bucket, and an encoder is
-- not closed: the client gets what the encoder has given out without its end.
pub deliver-cut :
    (zip : Compression) (client : Client) (common : Header) (ans : Answer) (s : Bytes) (e : Encoder)
    (n : ℕ)
    → ans.body ≡ some (complete s)
    → ans.encoder ≡ some e
    → ans.upload_burst ≡ pos n
    → client.room ≡ none
    → length s < n * 1024
    → n * 1024 < 2 ^ 63
    → deliver zip client common (answer ans)
      ≡ sent ans.code (common ++ ans.headers) (zip.encoded e s) (some eof)
unfolding deliver source_of sent_copied wire_bytes
deliver-cut zip client common ans s e n has_body encoded burst unlimited short small =
    rw (has_body, encoded, burst, unlimited)
      (ap
        (λ c.
          sent ans.code (common ++ ans.headers) (wire_bytes zip (some e) c.sink.written c.error)
            c.error)
        (copy_rate-eof client.leaky_bucket [] s n ans.upload_rate short small))
