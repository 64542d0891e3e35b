-- ===== src/Cgroup/DeviceKey.antt =====
-- The key `major:minor` of a block device, of cgroup/stats.go and of procfs/mountinfo.go.
use acadock_monitoring.Prelude.Word.{modulus}
use acadock_monitoring.Prelude.{
  ℕ, ◌<◌, [], ◌∷◌, ◌++◌, Bytes, bytes_eq, if◌then◌else◌, All, ◌≡◌, sym, ap, ◌∙◌, arith,
}
use acadock_monitoring.Text.Decimal.{IsDigit, format_uint}
use acadock_monitoring.Text.Decimal.Format.{format_uint-IsDigit, format_uint_injective}
use acadock_monitoring.Cgroup.Metrics.{BlkIoEntry}
use acadock_monitoring.Cgroup.BlkIo.{number_key, entry_key}

colon_splits :
    (xs ys s t : Bytes)
    → All IsDigit xs
    → All IsDigit ys
    → xs ++ b':' ∷ s ≡ ys ++ b':' ∷ t
    → (xs ≡ ys) × (s ≡ t)
colon_splits [] [] s t hx hy e = ground arith
colon_splits [] (y ∷ ys) s t hx (h, hy) e = ground arith
colon_splits (x ∷ xs) [] s t (h, hx) hy e = ground arith
colon_splits (x ∷ xs) (y ∷ ys) s t (h, hx) (k, hy) e = ground (arith, colon_splits xs ys s t hx hy)

number_key_injective :
    (major minor major' minor' : ℕ)
    → major < modulus
    → minor < modulus
    → major' < modulus
    → minor' < modulus
    → number_key major minor ≡ number_key major' minor'
    → (major ≡ major') × (minor ≡ minor')
unfolding number_key
number_key_injective a b c d ha hb hc hd e =
    let (same_major, same_minor) =
      colon_splits (format_uint a) (format_uint c) (format_uint b) (format_uint d)
        (format_uint-IsDigit a) (format_uint-IsDigit c) e in
    (format_uint_injective a c ha hc same_major, format_uint_injective b d hb hd same_minor)

-- Two entries that have no device name, and the same key, have the same major and minor numbers, if
-- these are numbers of 64 bits.
pub entry_key_injective :
    (e f : BlkIoEntry)
    → e.device ≡ []
    → f.device ≡ []
    → e.major < modulus
    → e.minor < modulus
    → f.major < modulus
    → f.minor < modulus
    → entry_key e ≡ entry_key f
    → (e.major ≡ f.major) × (e.minor ≡ f.minor)
unfolding entry_key bytes_eq
entry_key_injective e f no_name no_name' ha hb hc hd same =
    number_key_injective e.major e.minor f.major f.minor ha hb hc hd
      (sym (key_of e no_name) ∙ same ∙ key_of f no_name')
  where
    key_of : (x : BlkIoEntry) → x.device ≡ [] → entry_key x ≡ number_key x.major x.minor
    key_of x h = ap (λ (d : Bytes). if bytes_eq d [] then number_key x.major x.minor else d) h
