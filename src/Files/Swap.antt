-- ===== src/Files/Swap.antt =====
-- A file that is written beside its target and renamed into place or removed.
use agbridge.Prelude.{
  ℕ, ◌≡◌, [], ◌++◌, Bytes, bytes_eq, ◌==◌, eq_iff, eq_refl, if◌then◌else◌, none, some, arith, sym,
  ◌∙◌, Bool, true, false, ◌⊎◌, Bool-cases, inl, inr,
}
use agbridge.Prelude.Maps
use agbridge.Prelude.Maps.{map_laws}
use agbridge.Files.{File, Files, create_temp, append, chmod, syscall_mode, unlink, rename}

-- Everything is as before, but for one file.
abbrev pub Holds : Files → Bytes → File → Files → Type 0
Holds fs tmp f fs' = (q : Bytes) → Maps.get fs' q ≡ (if tmp == q then some f else Maps.get fs q)

pub Holds-here :
    (fs : Files) (tmp : Bytes) (f : File) (fs' : Files)
    → Holds fs tmp f fs'
    → Maps.get fs' tmp ≡ some f
Holds-here fs tmp f fs' h = ground (arith, h tmp, eq_refl tmp)

Holds-put :
    (fs : Files) (tmp : Bytes) (f g : File) (fs' : Files)
    → Holds fs tmp f fs'
    → Holds fs tmp g (Maps.put fs' tmp g)
Holds-put fs tmp f g fs' h q = ground (arith, h q, Maps.get-put fs' tmp q g)

pub create-Holds :
    (fs : Files) (tmp : Bytes)
    → Holds fs tmp (record { content = []; mode = 384 }) (create_temp fs tmp)
unfolding create_temp
create-Holds fs tmp q = Maps.get-put fs tmp q _

pub append-Holds :
    (fs : Files) (tmp : Bytes) (f : File) (fs' : Files) (b : Bytes)
    → Holds fs tmp f fs'
    → Holds fs tmp (record f { content = f.content ++ b }) (append fs' tmp b)
unfolding append
append-Holds fs tmp f fs' b h = rw (Holds-here fs tmp f fs' h) (Holds-put fs tmp f _ fs' h)

pub chmod-Holds :
    (fs : Files) (tmp : Bytes) (f : File) (fs' : Files) (mode : ℕ)
    → Holds fs tmp f fs'
    → Holds fs tmp (record f { mode = syscall_mode mode }) (chmod fs' tmp mode)
unfolding chmod
chmod-Holds fs tmp f fs' mode h = rw (Holds-here fs tmp f fs' h) (Holds-put fs tmp f _ fs' h)

-- All files are as before, but for a temporary one that could not be removed.
abbrev pub Kept : (works : Bool) → Bytes → Files → Files → Type 0
Kept works tmp fs fs' =
    (q : Bytes) → ((tmp == q) ≡ false) ⊎ (works ≡ true) → Maps.get fs' q ≡ Maps.get fs q

-- Removed again, it leaves no trace where there was no such file.
remove-Holds :
    (fs : Files) (tmp : Bytes) (f : File) (fs' : Files)
    → Maps.get fs tmp ≡ none
    → Holds fs tmp f fs'
    → (q : Bytes) → Maps.get (Maps.remove fs' tmp) q ≡ Maps.get fs q
remove-Holds fs tmp f fs' fresh h q = elim (Bool-cases (tmp == q)) [
  | inl here ↦ rw (← (eq_iff tmp q).0 here) (Maps.get-remove_self fs' tmp ∙ sym fresh)
  | inr other ↦ ground (arith, h q, Maps.get-remove fs' tmp q)
]

pub unlink-Kept :
    (works : Bool) (fs : Files) (tmp : Bytes) (f : File) (fs' : Files)
    → Maps.get fs tmp ≡ none
    → Holds fs tmp f fs'
    → Kept works tmp fs (unlink works fs' tmp)
unfolding unlink
unlink-Kept true fs tmp f fs' fresh h q side = remove-Holds fs tmp f fs' fresh h q
unlink-Kept false fs tmp f fs' fresh h q (inl other) = ground (arith, h q, other)
unlink-Kept false fs tmp f fs' fresh h q (inr w) = cc

-- Renamed, it stands at the new path, and nothing else has changed.
pub rename-Holds :
    (fs : Files) (tmp path : Bytes) (f : File) (fs' : Files)
    → Maps.get fs tmp ≡ none
    → Holds fs tmp f fs'
    → Holds fs path f (rename fs' tmp path)
unfolding rename
rename-Holds fs tmp path f fs' fresh h q = rw (Holds-here fs tmp f fs' h) (
    ground
      (arith, remove-Holds fs tmp f fs' fresh h q, Maps.get-put (Maps.remove fs' tmp) path q f))
