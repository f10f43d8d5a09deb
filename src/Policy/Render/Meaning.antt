-- ===== src/Policy/Render/Meaning.antt =====
-- The text that `render_workspace_preserving` gives means the policy that it is given.
use seter.Prelude.{
  ◌≡◌, refl, sym, ap, ◌∙◌, true, All, Option, none, some, List, [], ◌∷◌, map, ok, bind-eq-ok,
  context-eq-ok, ok_inj, inl, inr, Bool-cases,
}
use seter.Prelude.Eq.{◌==◌, nat_eq, list_eq, option_eq, list_beq_iff}
use seter.Prelude.Text.{Text, text}
use seter.Prelude.Text.Ascii.{to_ascii_lowercase, to_ascii_lowercase_idem}
use seter.Prelude.Map.{text_cmp}
use seter.Prelude.Order.{sort}
use seter.Prelude.Order.Sorting.{sort-All}
use seter.Policy.Normalize.Idempotent.{All-map, map_fixed}
use seter.Policy.{TcpGrant, tcp_eq, PrivateHttpGrant, private_eq, EgressPolicy, PolicyFile}
use seter.Policy.Normalize.{
  tcp_cmp, private_cmp, lower_tcp, lower_private, normalize_egress, normalize,
}
use seter.Policy.Grants.{egress_of}
use seter.Policy.Render.{
  TomlEdit, redecorate, replace_string_array_preserving_decor, tcp_table, private_table,
  set_private, replace_http, replace_passthrough, replace_tcp, replace_private, edit_egress,
  render_workspace_preserving,
}
use seter.Policy.Render.Laws.{TomlLaws, egress_of-normalize}
use seter.Policy.Render.Tables.{map-read, tcp_table-read, map-lower}

module _ (toml : TomlEdit) (laws : TomlLaws toml) where
  open toml use {Item, Table, is_table}
  open laws use {read_item, read_tcp, read_private}

  -- The decoration of an array does not count.
  redecorate-read :
      (i : Item) (key : Text) (decor : Option toml.Decor)
      → is_table i ≡ true
      → (is_table (redecorate toml key decor i) ≡ true)
        × (read_item (redecorate toml key decor i) ≡ read_item i)
  redecorate-read i key none standard = (standard, refl)
  redecorate-read i key (some decor) standard = laws.decorated i key decor standard

  module _ (policy : EgressPolicy) (normal : normalize_egress policy ≡ policy) where
    replace_http-read :
        (before : EgressPolicy) (i : Item)
        → is_table i ≡ true
        → before.http_hosts ≡ sort text_cmp (map to_ascii_lowercase (read_item i).http_hosts)
        → (is_table (replace_http toml before policy i) ≡ true)
          × (hosts : List Text) × (read_item (replace_http toml before policy i)
              ≡ record (read_item i) { http_hosts = hosts })
          × (sort text_cmp (map to_ascii_lowercase hosts) ≡ policy.http_hosts)
    unfolding replace_http replace_string_array_preserving_decor normalize_egress
    replace_http-read before i standard means =
        elim (Bool-cases (before.http_hosts == policy.http_hosts)) [
          | inl same ↦ rw same (
            standard,
            (read_item i).http_hosts,
            refl,
            sym means ∙ (list_beq_iff before.http_hosts policy.http_hosts).0 same,
          )
          | inr other ↦
              let (standard', reads) = laws.http_array i policy.http_hosts standard in
              let (standard₂, reads₂) =
                redecorate-read (toml.set_array i (text "http-hosts") policy.http_hosts)
                  (text "http-hosts") (toml.array_decor i (text "http-hosts")) standard' in
              rw other (
                standard₂,
                policy.http_hosts,
                reads₂ ∙ reads,
                ap (λ (p : EgressPolicy). p.http_hosts) normal,
              )
        ]

    replace_passthrough-read :
        (before : EgressPolicy) (i : Item)
        → is_table i ≡ true
        → before.passthrough_hosts
          ≡ sort text_cmp (map to_ascii_lowercase (read_item i).passthrough_hosts)
        → (is_table (replace_passthrough toml before policy i) ≡ true)
          × (hosts : List Text) × (read_item (replace_passthrough toml before policy i)
              ≡ record (read_item i) { passthrough_hosts = hosts })
          × (sort text_cmp (map to_ascii_lowercase hosts) ≡ policy.passthrough_hosts)
    unfolding replace_passthrough replace_string_array_preserving_decor normalize_egress
    replace_passthrough-read before i standard means =
        elim (Bool-cases (before.passthrough_hosts == policy.passthrough_hosts)) [
          | inl same ↦ rw same (
            standard,
            (read_item i).passthrough_hosts,
            refl,
            sym means ∙ (list_beq_iff before.passthrough_hosts policy.passthrough_hosts).0 same,
          )
          | inr other ↦
              let (standard', reads) = laws.passthrough_array i policy.passthrough_hosts standard in
              let (standard₂, reads₂) =
                redecorate-read
                  (toml.set_array i (text "passthrough-hosts") policy.passthrough_hosts)
                  (text "passthrough-hosts") (toml.array_decor i (text "passthrough-hosts"))
                  standard' in
              rw other (
                standard₂,
                policy.passthrough_hosts,
                reads₂ ∙ reads,
                ap (λ (p : EgressPolicy). p.passthrough_hosts) normal,
              )
        ]

    replace_tcp-read :
        (o : Option (List Table)) (before : EgressPolicy) (i : Item)
        → is_table i ≡ true
        → before.tcp ≡ sort tcp_cmp (map lower_tcp (read_item i).tcp)
        → (is_table (replace_tcp toml o before policy i) ≡ true)
          × (tcp : List TcpGrant) × (read_item (replace_tcp toml o before policy i)
              ≡ record (read_item i) { tcp = tcp })
          × (sort tcp_cmp (map lower_tcp tcp) ≡ policy.tcp)
    unfolding replace_tcp normalize_egress
    replace_tcp-read o before i standard means = elim (Bool-cases (before.tcp == policy.tcp)) [
      | inl same ↦ rw same (
        standard,
        (read_item i).tcp,
        refl,
        sym means ∙ (list_beq_iff before.tcp policy.tcp).0 same,
      )
      | inr other ↦
          let (standard', reads) = laws.tcp_tables i (map (tcp_table toml o) policy.tcp) standard in
          rw other (
            standard',
            policy.tcp,
            reads
                ∙ ap (λ tcp. record (read_item i) { tcp = tcp })
                    (map-read (tcp_table toml o) read_tcp (tcp_table-read toml laws o) policy.tcp),
            ap (λ (p : EgressPolicy). p.tcp) normal,
          )
    ]

    private-lower : All (λ g. lower_private g ≡ g) policy.private_http
    unfolding normalize_egress
    private-lower =
        let sorted = ap (λ (p : EgressPolicy). p.private_http) normal in
        let known =
          sort-All private_cmp (λ g. lower_private g ≡ g) (map lower_private policy.private_http)
            (All-map private_cmp lower_private (λ g. cc (to_ascii_lowercase_idem g.host))
              policy.private_http) in
        rw sorted at known

    -- A list of grants whose texts are those of the policy, but for case, is the policy's once it is normalised.
    private-sorted :
        (gs : List PrivateHttpGrant)
        → map lower_private gs ≡ policy.private_http
        → sort private_cmp (map lower_private gs) ≡ policy.private_http
    unfolding normalize_egress
    private-sorted gs same =
        ap (sort private_cmp)
          (same ∙ sym (map_fixed private_cmp lower_private policy.private_http private-lower))
        ∙ ap (λ (p : EgressPolicy). p.private_http) normal

    set_private-read :
        (o : Option (List Table)) (i : Item) (ps : List PrivateHttpGrant)
        → All (λ g. lower_private g ≡ g) ps
        → is_table i ≡ true
        → (gs : List PrivateHttpGrant) × (read_item (set_private toml o ps i)
            ≡ record (read_item i) { private_http = gs })
          × (map lower_private gs ≡ ps)
    set_private-read o i [] low standard = rw standard ([], laws.private_removed i standard, refl)
    set_private-read o i (g ∷ gs) low standard = (
      _,
      laws.private_tables i (map (private_table toml o) (g ∷ gs)) standard,
      map-lower toml laws o (g ∷ gs) low,
    )

    replace_private-read :
        (o : Option (List Table)) (before : EgressPolicy) (i : Item)
        → is_table i ≡ true
        → before.private_http ≡ sort private_cmp (map lower_private (read_item i).private_http)
        → (gs : List PrivateHttpGrant) × (read_item (replace_private toml o before policy i)
            ≡ record (read_item i) { private_http = gs })
          × (sort private_cmp (map lower_private gs) ≡ policy.private_http)
    unfolding replace_private
    replace_private-read o before i standard means =
        elim (Bool-cases (before.private_http == policy.private_http)) [
          | inl same ↦ rw same (
            (read_item i).private_http,
            refl,
            sym means ∙ (list_beq_iff before.private_http policy.private_http).0 same,
          )
          | inr other ↦
              let (gs, reads, lowers) =
                set_private-read o i policy.private_http private-lower standard in
              rw other (gs, reads, private-sorted gs lowers)
        ]

    egress_of_parts :
        (https passes : List Text) (tcps : List TcpGrant) (gs : List PrivateHttpGrant)
        → sort text_cmp (map to_ascii_lowercase https) ≡ policy.http_hosts
        → sort text_cmp (map to_ascii_lowercase passes) ≡ policy.passthrough_hosts
        → sort tcp_cmp (map lower_tcp tcps) ≡ policy.tcp
        → sort private_cmp (map lower_private gs) ≡ policy.private_http
        → normalize_egress (record {
          http_hosts = https;
          passthrough_hosts = passes;
          tcp = tcps;
          private_http = gs;
        })
          ≡ policy
    unfolding normalize_egress
    egress_of_parts https passes tcps gs n₁ n₂ n₃ n₄ = cc (n₁, n₂, n₃, n₄)

    edit_egress-read :
        (document : toml.Document) (name : Text)
        → is_table (toml.egress_item document name) ≡ true
        → normalize_egress (
            read_item (
              edit_egress toml document name
                (normalize_egress (read_item (toml.egress_item document name)))
                policy))
          ≡ policy
    unfolding edit_egress normalize_egress
    edit_egress-read document name standard =
        let i = toml.egress_item document name in
        let before = normalize_egress (read_item i) in
        let o = toml.egress_tables document name (text "tcp") in
        let o' = toml.egress_tables document name (text "private-http") in
        let i₁ = replace_http toml before policy i in
        let i₂ = replace_passthrough toml before policy i₁ in
        let i₃ = replace_tcp toml o before policy i₂ in
        let (s₁, https, r₁, n₁) = replace_http-read before i standard refl in
        let (s₂, passes, r₂, n₂) = replace_passthrough-read before i₁ s₁ (
          ap (λ (p : EgressPolicy). sort text_cmp (map to_ascii_lowercase p.passthrough_hosts))
            (sym r₁)) in
        let with_passes : EgressPolicy → EgressPolicy =
          λ p. record p { passthrough_hosts = passes } in
        let r₁₂ : read_item i₂ ≡ with_passes (record (read_item i) { http_hosts = https }) =
          r₂ ∙ ap with_passes r₁ in
        let (s₃, tcps, r₃, n₃) =
          replace_tcp-read o before i₂ s₂
            (ap (λ (p : EgressPolicy). sort tcp_cmp (map lower_tcp p.tcp)) (sym r₁₂)) in
        let with_tcp : EgressPolicy → EgressPolicy = λ p. record p { tcp = tcps } in
        let r₁₃ : read_item i₃
            ≡ with_tcp (with_passes (record (read_item i) { http_hosts = https })) =
          r₃ ∙ ap with_tcp r₁₂ in
        let (gs, r₄, n₄) = replace_private-read o' before i₃ s₃ (
          ap (λ (p : EgressPolicy). sort private_cmp (map lower_private p.private_http))
            (sym r₁₃)) in
        let with_private : EgressPolicy → EgressPolicy = λ p. record p { private_http = gs } in
        let reads = r₄ ∙ ap with_private r₁₃ in
        ap normalize_egress reads ∙ egress_of_parts https passes tcps gs n₁ n₂ n₃ n₄

    -- Under the laws of toml and toml_edit: if the document of the original text has the workspace's `egress` as a
    -- standard table, and the rendered text reads as a Policy File, then the workspace's policy of
    -- that file is, once it is normalised, the normalised policy that was to be rendered.
    pub render-IsReadAs :
        (original name : Text) (document : toml.Document) (rendered : Text) (result : PolicyFile)
        → toml.parse original ≡ some document
        → is_table (toml.egress_item document name) ≡ true
        → render_workspace_preserving toml original name policy ≡ ok rendered
        → toml.read_policy rendered ≡ some result
        → egress_of (normalize result) name ≡ policy
    unfolding render_workspace_preserving
    render-IsReadAs original name document rendered result parses standard h reads =
        let (parsed, read, h₁) = bind-eq-ok _ _ h in
        let (d, opened, h₂) = bind-eq-ok _ _ h₁ in
        let found : some d ≡ some document = sym (context-eq-ok _ _ opened) ∙ parses in
        let same : d ≡ document = cc in
        let before : egress_of (normalize parsed) name
            ≡ normalize_egress (read_item (toml.egress_item document name)) =
          egress_of-normalize name parsed
          ∙ ap normalize_egress
              (laws.parsed original document name parsed parses (context-eq-ok _ _ read)) in
        let item =
          edit_egress toml document name
            (normalize_egress (read_item (toml.egress_item document name))) policy in
        let prints : toml.to_string (toml.with_egress document name item) ≡ rendered =
          rw (← before, ← same) (ok_inj h₂) in
        egress_of-normalize name result
        ∙ (ap normalize_egress (
              laws.printed (toml.with_egress document name item) name result
                (rw (← prints) at reads)
              ∙ ap read_item (laws.written document name item))
            ∙ edit_egress-read document name standard)
