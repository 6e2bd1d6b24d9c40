-- ===== src/Crypto.antt =====
-- Go's crypto/md5 and crypto/hmac, which the program calls and does not implement: what is relied on
-- is the length and the range of a digest.
use fakeradius.Base.{◌≡◌, length}
use fakeradius.Base.Bytes.{Bytes, AreBytes}

pub record Crypto : Type 0 where
  -- `md5.Sum(data)`
  pub md5 : Bytes → Bytes
  -- `hmac.New(md5.New, key)`, then `Write(data)` and `Sum(nil)`
  pub hmac_md5 : Bytes → Bytes → Bytes
  pub length-md5 : (data' : Bytes) → length (md5 data') ≡ 16
  pub md5-AreBytes : (data' : Bytes) → AreBytes (md5 data')
  pub length-hmac_md5 : (key data' : Bytes) → length (hmac_md5 key data') ≡ 16
