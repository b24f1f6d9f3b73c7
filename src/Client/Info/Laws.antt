-- ===== src/Client/Info/Laws.antt =====
-- What the client learns of the game from the patch file.
use multiplayer.Client.Info.Names.{last_name, find_names_nil, find_nothing}
use multiplayer.Prelude.{
  ok, refl, arith, some, List, [], true, ℕ, ◌==◌, ◌∷◌, ◌≡◌, Bool-cases, ap, inl, inr, ok-injective,
  sym, ◌∙◌, >>=-eq-ok, Result, err, panic, subst, ◌>>=◌, ◌⊎◌, ==_iff, length, suc, zero,
}
use multiplayer.Client.Info.{
  Info, InfoMode, mode_of, Names, find_name, mode_name, set_names, string_eq, coop, multi, single,
  Library, FileName, RawMeta, check_length, check_version, meta_info, or_same, entrances_json,
  extract_game_info, items_json, locations_json, manifest, meta_json, parse_entrances, parse_items,
  parse_locations, read_file,
}
use multiplayer.Client.Info
use multiplayer.Bytes.{to_array, bytes}
use multiplayer.Bytes.Int16.{ℤ, pos, negsuc}

string_eq_lem : (a b : List ℕ) → string_eq a b ≡ true → a ≡ b
unfolding string_eq
string_eq_lem [] [] h = refl
string_eq_lem [] (b ∷ bs) h = absurd (cc)
string_eq_lem (a ∷ as_) [] h = absurd (cc)
string_eq_lem (a ∷ as_) (b ∷ bs) h = ground (arith, string_eq_lem as_ bs)

mode_of-ok : (s : List ℕ) (m : InfoMode) → mode_of s ≡ ok m → s ≡ mode_name m
unfolding mode_of
mode_of-ok s m h = elim (Bool-cases (string_eq s (mode_name single))) [
  | inl a ↦ string_eq_lem s _ a ∙ ap mode_name (ok-injective (rw a at h))
  | inr a ↦ elim (Bool-cases (string_eq s (mode_name coop))) [
    | inl b ↦ string_eq_lem s _ b ∙ ap mode_name (ok-injective (rw b at (rw a at h)))
    | inr b ↦ elim (Bool-cases (string_eq s (mode_name multi))) [
      | inl c ↦ string_eq_lem s _ c ∙ ap mode_name (ok-injective (rw c at (rw b at (rw a at h))))
      | inr c ↦ absurd (ground (arith, rw c at (rw b at (rw a at h))))
    ]
  ]
]

-- What a manifest has done to a map, if it could be read.
abbrev pub Named : Result Names → Names → Names → Type 0
Named r old new = ((es : Names) × (r ≡ ok es) × (new ≡ set_names es old)) ⊎ (new ≡ old)

-- A parser of a manifest that has changed one of the maps.
or_same-ok :
    (set : Info → Names → Info) (get : Info → Names) (r : Result Names) (info new : Info)
    → ((m : Names) → get (set info m) ≡ m)
    → set info (get info) ≡ info
    → or_same info (r >>= λ es. ok (set info (set_names es (get info)))) ≡ ok new
    → (new ≡ set info (get new)) × Named r (get info) (get new)
unfolding or_same
or_same-ok set get (ok es) info new g s h =
    let q : set info (set_names es (get info)) ≡ new = ok-injective h in
    let p : get new ≡ set_names es (get info) = ap get (sym q) ∙ g (set_names es (get info)) in
    (sym q ∙ ap (set info) (sym p), inl (es, refl, p))
or_same-ok set get (err e) info new g s h =
    let q : info ≡ new = ok-injective h in
    (sym q ∙ sym s ∙ ap (λ x. set info (get x)) q, inr (ap get (sym q)))
or_same-ok set get panic info new g s h = absurd (cc)

bytes-to_array : (n : ℕ) (d : List ℕ) → length d ≡ n → bytes n (to_array n d) ≡ d
bytes-to_array zero [] h = refl
bytes-to_array zero (b ∷ d) h = absurd (omega arith)
bytes-to_array (suc n) [] h = absurd (omega arith)
bytes-to_array (suc n) (b ∷ d) h = ap (◌∷◌ b) (bytes-to_array n d (omega arith))

check_length-ok : (n : ℕ) (d x : List ℕ) → check_length n d ≡ ok x → d ≡ bytes n (to_array n d)
unfolding check_length
check_length-ok n d x h = elim (Bool-cases (length d == n)) [
  | inl q ↦ sym (bytes-to_array n d ((==_iff _ _).0 q))
  | inr q ↦ absurd (ground (arith, rw q at h))
]

module _ (lib : Library) where
  -- Where the fields of an info come from.
  pub record IsFrom (raw : RawMeta) (info : Info) : Type 0 where
    pub session_id : lib.decode_string raw.session_id ≡ ok (bytes 16 info.session_id)
    pub session_secret : lib.decode_string raw.session_secret ≡ ok (bytes 8 info.session_secret)
    pub world_id : info.world_id ≡ raw.world_id
    pub mode : raw.mode ≡ mode_name info.mode

  meta_info-ok :
      (raw : RawMeta) (info : Info)
      → Info.meta_info lib raw ≡ ok info
      → IsFrom raw info × (info.items ≡ []) × (info.locations ≡ []) × (info.entrances ≡ [])
  unfolding Info.meta_info
  meta_info-ok raw info h =
      let (id, a, h) = >>=-eq-ok (lib.decode_string raw.session_id) _ h in
      let (_, b, h) = >>=-eq-ok (check_length 16 id) _ h in
      let (secret, c, h) = >>=-eq-ok (lib.decode_string raw.session_secret) _ h in
      let (_, d, h) = >>=-eq-ok (check_length 8 secret) _ h in
      let (mode, e, h) = >>=-eq-ok (mode_of raw.mode) _ h in
      let q = ok-injective h in
      (
        subst (IsFrom raw) q (record {
          session_id = a ∙ ap ok (check_length-ok 16 id _ b);
          session_secret = c ∙ ap ok (check_length-ok 8 secret _ d);
          world_id = refl;
          mode = mode_of-ok raw.mode mode e;
        }),
        ap (λ (x : Info). x.items) (sym q),
        ap (λ (x : Info). x.locations) (sym q),
        ap (λ (x : Info). x.entrances) (sym q),
      )

  parse_items-ok :
      (reader : lib.Reader) (info new : Info)
      → Info.parse_items lib reader info ≡ ok new
      → (new ≡ record info { items = new.items })
        × Named (Info.manifest lib lib.unmarshal_items reader items_json) info.items new.items
  unfolding Info.parse_items
  parse_items-ok reader info new h =
      or_same-ok (λ i m. record i { items = m }) (λ i. i.items)
        (Info.manifest lib lib.unmarshal_items reader items_json) info new (λ m. refl) refl h

  parse_locations-ok :
      (reader : lib.Reader) (info new : Info)
      → Info.parse_locations lib reader info ≡ ok new
      → (new ≡ record info { locations = new.locations })
        × Named
            (Info.manifest lib lib.unmarshal_locations reader locations_json)
            info.locations
            new.locations
  unfolding Info.parse_locations
  parse_locations-ok reader info new h =
      or_same-ok (λ i m. record i { locations = m }) (λ i. i.locations)
        (Info.manifest lib lib.unmarshal_locations reader locations_json) info new (λ m. refl) refl
        h

  parse_entrances-ok :
      (reader : lib.Reader) (info new : Info)
      → Info.parse_entrances lib reader info ≡ ok new
      → (new ≡ record info { entrances = new.entrances })
        × Named
            (Info.manifest lib lib.unmarshal_entrances reader entrances_json)
            info.entrances
            new.entrances
  unfolding Info.parse_entrances
  parse_entrances-ok reader info new h =
      or_same-ok (λ i m. record i { entrances = m }) (λ i. i.entrances)
        (Info.manifest lib lib.unmarshal_entrances reader entrances_json) info new (λ m. refl) refl
        h

  -- A name in a map comes from a file of the patch that says that its version is 1, and is the last
  -- of its key there.
  abbrev pub IsListed : (List ℕ → Result Names) → lib.Reader → FileName → Names → Type 0
  IsListed unmarshal reader name m =
      (k : ℕ) (s : List ℕ)
      → find_name k m ≡ some s
      → (file : lib.ZipFile) × (d : List ℕ) × (es : Names) × (lib.open_file reader name ≡ ok file)
        × (lib.read_all file ≡ ok d)
        × (lib.unmarshal_version d ≡ ok (pos 1))
        × (unmarshal d ≡ ok es)
        × (last_name k es ≡ some s)

  check_version-ok : (v : ℤ) (x : Unit {0}) → check_version v ≡ ok x → v ≡ pos 1
  unfolding check_version
  check_version-ok (pos n) x h = elim (Bool-cases (n == 1)) [
    | inl e ↦ ap pos ((==_iff n 1).0 e)
    | inr e ↦ absurd (ground (arith, rw e at h))
  ]
  check_version-ok (negsuc n) x h = absurd (cc)

  Named-IsListed :
      (unmarshal : List ℕ → Result Names) (reader : lib.Reader) (name : FileName) (old m : Names)
      → old ≡ []
      → Named (Info.manifest lib unmarshal reader name) old m
      → IsListed unmarshal reader name m
  unfolding Info.manifest Info.read_file
  Named-IsListed unmarshal reader name old m e (inl (es, q, h)) k s f =
      let (d, a, q1) = >>=-eq-ok (Info.read_file lib reader name) _ q in
      let (file, o, r) = >>=-eq-ok (lib.open_file reader name) _ a in
      let (v, b, q2) = >>=-eq-ok (lib.unmarshal_version d) _ q1 in
      let (x, c, u) = >>=-eq-ok (check_version v) _ q2 in
      (
        file,
        d,
        es,
        o,
        r,
        b ∙ ap ok (check_version-ok v x c),
        u,
        sym (find_names_nil k es)
            ∙ ap (λ (x : Names). find_name k (set_names es x)) (sym e)
            ∙ ap (find_name k) (sym h)
            ∙ f,
      )
  Named-IsListed unmarshal reader name old m e (inr h) k s f =
      absurd (find_nothing k s (ap (find_name k) (sym e ∙ sym h) ∙ f))

  with_names-IsFrom :
      (raw : RawMeta) (i : Info) (a b c : Names)
      → IsFrom raw i
      → IsFrom raw (record i { items = a; locations = b; entrances = c })
  with_names-IsFrom raw i a b c f = record {
    session_id = f.session_id;
    session_secret = f.session_secret;
    world_id = f.world_id;
    mode = f.mode;
  }

  -- The three manifests, read into an info that has no names yet.
  manifests-ok :
      (reader : lib.Reader) (raw : RawMeta) (i a b c : Info)
      → IsFrom raw i × (i.items ≡ []) × (i.locations ≡ []) × (i.entrances ≡ [])
      → Info.parse_items lib reader i ≡ ok a
      → Info.parse_locations lib reader a ≡ ok b
      → Info.parse_entrances lib reader b ≡ ok c
      → IsFrom raw c
        × IsListed lib.unmarshal_items reader items_json c.items
        × IsListed lib.unmarshal_locations reader locations_json c.locations
        × IsListed lib.unmarshal_entrances reader entrances_json c.entrances
  manifests-ok reader raw i a b c (f, ni, nl, ne) p q r =
      let (ea, na) = parse_items-ok reader i a p in
      let (eb, nb) = parse_locations-ok reader a b q in
      let (ec, nc) = parse_entrances-ok reader b c r in
      let fa =
        subst (IsFrom raw) (sym ea) (with_names-IsFrom raw i a.items i.locations i.entrances f) in
      let fb =
        subst (IsFrom raw) (sym eb) (with_names-IsFrom raw a a.items b.locations a.entrances fa) in
      let x : c.items ≡ a.items =
        ap (λ (x : Info). x.items) (ec) ∙ ap (λ (x : Info). x.items) (eb) in
      let y : c.locations ≡ b.locations = ap (λ (x : Info). x.locations) ec in
      let z : a.locations ≡ [] = ap (λ (x : Info). x.locations) ea ∙ nl in
      let w : b.entrances ≡ [] =
        ap (λ (x : Info). x.entrances) eb ∙ ap (λ (x : Info). x.entrances) ea ∙ ne in
      (
        subst (IsFrom raw) (sym ec) (with_names-IsFrom raw b b.items b.locations c.entrances fb),
        rw x (Named-IsListed _ _ _ i.items a.items ni na),
        rw y (Named-IsListed _ _ _ a.locations b.locations z nb),
        Named-IsListed _ _ _ b.entrances c.entrances w nc,
      )

  -- When ExtractGameInfo returns an info, whatever the libraries for archives, JSON and hexadecimal
  -- digits do: the patch file could be opened, its meta.json says what the session, the secret, the
  -- world and the mode are, the ids are decoded to exactly 16 and 8 bytes, the mode is one of the three
  -- names, and a name of an item, a location or an entrance is the last of its key in its manifest, a
  -- file of the patch whose version is read as 1.
  pub extract_game_info-ok :
      (path : List ℕ) (info : Info)
      → Info.extract_game_info lib path ≡ ok info
      → (reader : lib.Reader) × (raw : RawMeta) × (lib.open_reader path ≡ ok reader)
        × ((Info.read_file lib reader meta_json >>= lib.unmarshal_meta) ≡ ok raw)
        × IsFrom raw info
        × IsListed lib.unmarshal_items reader items_json info.items
        × IsListed lib.unmarshal_locations reader locations_json info.locations
        × IsListed lib.unmarshal_entrances reader entrances_json info.entrances
  unfolding Info.extract_game_info
  extract_game_info-ok path info h =
      let (reader, o, h) = >>=-eq-ok (lib.open_reader path) _ h in
      let (d, r, h) = >>=-eq-ok (Info.read_file lib reader meta_json) _ h in
      let (raw, u, h) = >>=-eq-ok (lib.unmarshal_meta d) _ h in
      let (i, m, h) = >>=-eq-ok (Info.meta_info lib raw) _ h in
      let (i1, a, h) = >>=-eq-ok (Info.parse_items lib reader i) _ h in
      let (i2, b, c) = >>=-eq-ok (Info.parse_locations lib reader i1) _ h in
      let (f, x, y, z) = manifests-ok reader raw i i1 i2 info (meta_info-ok raw i m) a b c in
      (reader, raw, o, ap (λ x. x >>= lib.unmarshal_meta) r ∙ u, f, x, y, z)
