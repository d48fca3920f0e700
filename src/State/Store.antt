-- ===== src/State/Store.antt =====
-- What saveJSON of internal/state/store.go leaves on the disk, and what is loaded from it.
use agbridge.Prelude.{
  Bool, ◌≡◌, ◌≢◌, refl, sym, ap, ◌∙◌, [], Bytes, bytes_eq, nat_eq, true, false, ◌==◌, eq_iff,
  Bool-cases, inl, inr, Option, none, some, Result, ok, err, arith,
}
use agbridge.Prelude.Maps
use agbridge.Files.{File, Files, unlink}
use agbridge.Files.Swap.{
  Holds, create-Holds, append-Holds, chmod-Holds, Kept, unlink-Kept, rename-Holds, Holds-here,
}
use agbridge.State.{DaemonState, Error, System, save_json, load_json, load_daemon, current_version}

-- An error and the same files, or none and the text at the path, readable by the owner only.
abbrev pub Saved :
    (removes : Bool)
    → Bytes
    → Files
    → Bytes
    → Option Bytes
    → Result Error (Unit {0}) × Files
    → Type 0
Saved removes tmp fs path text (err e, fs') = Kept removes tmp fs fs'
Saved removes tmp fs path text (ok _, fs') =
    (b : Bytes) × (text ≡ some b) × Holds fs path (record { content = b; mode = 384 }) fs'

unlinked :
    (works : Bool) (fs : Files) (tmp path : Bytes) (f : File) (fs' : Files)
    → Maps.get fs tmp ≡ none
    → (tmp == path) ≡ false
    → Holds fs path f fs'
    → Holds fs path f (unlink works fs' tmp)
unfolding unlink
unlinked false fs tmp path f fs' fresh apart h q = h q
unlinked true fs tmp path f fs' fresh apart h q = elim (Bool-cases (tmp == q)) [
  | inr other ↦ Maps.get-remove_other fs' tmp q other ∙ h q
  | inl here ↦
      let e : tmp ≡ q = (eq_iff tmp q).0 here in
      rw (← e) (
        Maps.get-remove_self fs' tmp ∙ elim (Bool-cases (path == tmp)) [
          | inl same ↦ ground (arith, apart, same, eq_iff path tmp, eq_iff tmp path)
          | inr far ↦ rw far (sym fresh)
        ])
]

-- saveJSON fails and changes no file, but that its temporary file is left where it cannot be removed, or
-- it succeeds and changes only the file at the path, which then
-- holds the whole text with mode 0600. The temporary file must be new and not the path.
pub save_json-Saved :
    (o : System) (path : Bytes) (text : Option Bytes) (fs : Files)
    → Maps.get fs o.temp_name ≡ none
    → (o.temp_name == path) ≡ false
    → Saved o.removes o.temp_name fs path text (save_json o path text fs)
unfolding save_json agbridge.Files.syscall_mode
save_json-Saved o path none fs fresh apart =
    let made = create-Holds fs o.temp_name in
    elim (Bool-cases (path == [])) [
      | inl a ↦ rw a (λ q _. refl)
      | inr a ↦ elim (Bool-cases o.mkdir_works) [
        | inr b ↦ rw (a, b) (λ q _. refl)
        | inl b ↦ elim (Bool-cases o.temp_works) [
          | inr c ↦ rw (a, b, c) (λ q _. refl)
          | inl c ↦ rw (a, b, c) (unlink-Kept o.removes fs o.temp_name _ _ fresh made)
        ]
      ]
    ]
save_json-Saved o path (some text) fs fresh apart =
    let written = append-Holds fs o.temp_name _ _ text (create-Holds fs o.temp_name) in
    let moded = chmod-Holds fs o.temp_name _ _ 384 written in
    elim (Bool-cases (path == [])) [
      | inl a ↦ rw a (λ q _. refl)
      | inr a ↦ elim (Bool-cases o.mkdir_works) [
        | inr b ↦ rw (a, b) (λ q _. refl)
        | inl b ↦ elim (Bool-cases o.temp_works) [
          | inr c ↦ rw (a, b, c) (λ q _. refl)
          | inl c ↦ elim (Bool-cases o.chmod_works) [
            | inr d ↦ rw (a, b, c, d) (unlink-Kept o.removes fs o.temp_name _ _ fresh written)
            | inl d ↦ elim (Bool-cases o.close_works) [
              | inr e ↦ rw (a, b, c, d, e) (unlink-Kept o.removes fs o.temp_name _ _ fresh moded)
              | inl e ↦ elim (Bool-cases o.rename_works) [
                | inr f ↦
                    rw (a, b, c, d, e, f) (unlink-Kept o.removes fs o.temp_name _ _ fresh moded)
                | inl f ↦
                    rw (a, b, c, d, e, f)
                      (
                        text,
                        refl,
                        unlinked o.removes fs o.temp_name path _ _ fresh apart
                            (rename-Holds fs o.temp_name path _ _ fresh moded),
                      )
              ]
            ]
          ]
        ]
      ]
    ]

abbrev pub content_of : Option File → Option Bytes
content_of none = none
content_of (some f) = some f.content

Saved-content_of :
    (removes : Bool) (tmp : Bytes) (fs : Files) (path b : Bytes)
    (p : Result Error (Unit {0}) × Files)
    → Saved removes tmp fs path (some b) p
    → p.0 ≡ ok tt
    → content_of (Maps.get p.1 path) ≡ some b
Saved-content_of removes tmp fs path b (err e, fs') h done = cc
Saved-content_of removes tmp fs path b (ok t, fs') (b', e, holds) done =
    ap content_of (Holds-here fs path _ fs' holds) ∙ sym e

load_daemon-text :
    (unmarshal : Bytes → Option DaemonState) (b : Bytes) (s : DaemonState)
    → unmarshal b ≡ some s
    → b ≢ []
    → s.version ≡ current_version
    → load_daemon unmarshal (some b) ≡ ok s
unfolding load_daemon load_json
load_daemon-text unmarshal b s parses there current = elim (Bool-cases (b == [])) [
  | inl empty ↦ absurd (there ((eq_iff b []).0 empty))
  | inr some' ↦
      rw (some', parses)
        (let same : (s.version == current_version) ≡ true =
            (eq_iff s.version current_version).1 current in
          ground (arith, same))
]

-- A daemon's state of the current version that is saved is what is loaded from the path afterwards,
-- where its JSON is not empty and parses to it.
pub load_daemon-save :
    (marshal : DaemonState → Bytes) (unmarshal : Bytes → Option DaemonState) (o : System)
    (path : Bytes) (s : DaemonState) (fs : Files)
    → Maps.get fs o.temp_name ≡ none
    → (o.temp_name == path) ≡ false
    → unmarshal (marshal s) ≡ some s
    → marshal s ≢ []
    → s.version ≡ current_version
    → (save_json o path (some (marshal s)) fs).0 ≡ ok tt
    → load_daemon unmarshal (content_of (Maps.get (save_json o path (some (marshal s)) fs).1 path))
      ≡ ok s
load_daemon-save marshal unmarshal o path s fs fresh apart parses there current saved =
    ap (load_daemon unmarshal) (
      Saved-content_of o.removes o.temp_name fs path (marshal s) _
        (save_json-Saved o path (some (marshal s)) fs fresh apart) saved)
    ∙ load_daemon-text unmarshal (marshal s) s parses there current
