-- ===== src/Device/Streams/Equipped/Attached.antt =====
-- src/Device.cpp: what a stream that is created with controls finds in its device.
use mathlib.Core.Path.{subst}
use lib_aspl.Prelude.{
  none, ◌+◌, sym, ap, ◌≢◌, ◌<◌, ◌^◌, ℕ, ◌≡◌, ◌∙◌, Bool, some, length, get_elem?, lookup,
  lookup-insert, arith,
}
use lib_aspl.Device.Streams.{
  streams, StreamTable, Direction, add_stream_async, apply_change, get_stream_by_index,
  get_stream_by_id, get_stream_count,
}
use lib_aspl.Device.Streams.Created.{
  StreamParameters, CreatedStreams, make_stream, create_stream_async, create_stream_for_async,
  parameters_for,
}
use lib_aspl.Object.{done}
use lib_aspl.Device.Controls.{
  Traits, list_at, list_control, get_volume_control_by_index, get_volume_control_count,
  get_mute_control_by_index, get_mute_control_count, get_volume_control_by_id,
  get_mute_control_by_id,
}
use lib_aspl.Device.Controls.Added.{
  get_elem?-last, list_control-last, add_volume_control_async-AddedTo,
  add_mute_control_async-AddedTo,
}
use lib_aspl.Device.Streams.Equipped.{
  set_at, attach_volume_control, attach_mute_control, EquippedDevice, scope_for,
  create_volume_control_async, create_mute_control_async, equip_stream,
  add_stream_with_controls_async, add_stream_with_controls_for_async,
}

-- A stream that is added is the last one of its direction.
add_stream_async-last :
    (direction : ℕ → Direction) (id : ℕ → ℕ) (enqueues : Bool) (stream : ℕ) (s : StreamTable)
    → length (streams (direction stream) s) < 2 ^ 32
    → let r = add_stream_async direction id enqueues (some stream) s in
      (get_stream_by_index (direction stream) (get_stream_count (direction stream) s) r
        ≡ some stream)
      × (get_stream_by_id (id stream) r ≡ some stream)
unfolding add_stream_async apply_change
add_stream_async-last direction id enqueues stream s few = ground (
  arith,
  get_elem?-last s.inputs stream,
  get_elem?-last s.outputs stream,
  lookup-insert (id stream) stream s.stream_by_id (id stream),
)

module _ {F : Type 0} (volume_id mute_id stream_id : ℕ → ℕ) (enqueues : Bool)
    (scope_input scope_output : ℕ) where
  -- A stream of direction `dir` was added last, and has the two controls that were added last for
  -- the scope of that direction.
  pub record IsEquipped (dir : Direction) (before : EquippedDevice F) (stream : ℕ)
      (after : EquippedDevice F) : Type 0 where
    pub listed :
        get_stream_by_index dir (get_stream_count dir before.created.table) after.created.table
        ≡ some stream
    pub found : get_stream_by_id (stream_id stream) after.created.table ≡ some stream
    pub volume_attached : (after.attached stream).volume ≡ some before.next_volume
    pub volume_listed :
        get_volume_control_by_index
          (scope_for scope_input scope_output dir)
          (get_volume_control_count (scope_for scope_input scope_output dir) before.controls)
          after.controls
        ≡ some before.next_volume
    pub volume_found :
        get_volume_control_by_id (volume_id before.next_volume) after.controls
        ≡ some before.next_volume
    pub mute_attached : (after.attached stream).mute ≡ some before.next_mute
    pub mute_listed :
        get_mute_control_by_index
          (scope_for scope_input scope_output dir)
          (get_mute_control_count (scope_for scope_input scope_output dir) before.controls)
          after.controls
        ≡ some before.next_mute
    pub mute_found :
        get_mute_control_by_id (mute_id before.next_mute) after.controls ≡ some before.next_mute

  -- The next two controls have no owner, and different identifiers; the lists have fewer than 2 ^ 32
  -- elements.
  pub record IsReady (dir : Direction) (d : EquippedDevice F) : Type 0 where
    pub volume_free : lookup (volume_id d.next_volume) d.controls.owned ≡ none
    pub mute_free : lookup (mute_id d.next_mute) d.controls.owned ≡ none
    pub apart : mute_id d.next_mute ≢ volume_id d.next_volume
    pub few_streams : length (streams dir d.created.table) < 2 ^ 32
    pub few_volumes :
        length
          (list_at (scope_for scope_input scope_output dir) d.controls.volume_controls.by_scope)
        < 2 ^ 32
    pub few_mutes :
        length (list_at (scope_for scope_input scope_output dir) d.controls.mute_controls.by_scope)
        < 2 ^ 32

  equip_stream-IsEquipped :
      (dir : Direction) (stream : ℕ) (d : EquippedDevice F) (created : CreatedStreams F)
      → IsReady dir d
      → get_stream_by_index dir (get_stream_count dir d.created.table) created.table ≡ some stream
      → get_stream_by_id (stream_id stream) created.table ≡ some stream
      → (after : EquippedDevice F) × (equip_stream volume_id mute_id stream_id enqueues
            (scope_for scope_input scope_output dir)
            stream
            (record d { created = created })
          ≡ done after)
        × IsEquipped dir d stream after
  unfolding equip_stream create_volume_control_async create_mute_control_async
  equip_stream-IsEquipped dir stream d created ready last here =
      let scope : ℕ = scope_for scope_input scope_output dir in
      let volume : Traits = record {
        scope = set_at d.next_volume scope d.volume_scope;
        id = volume_id;
      } in
      let mute : Traits = record { scope = set_at d.next_mute scope d.mute_scope; id = mute_id } in
      let (c, e, vs, ms, kept) =
        add_volume_control_async-AddedTo volume d.next_volume enqueues d.controls
          ready.volume_free in
      let (c', e', vs', ms', kept') =
        add_mute_control_async-AddedTo mute d.next_mute enqueues c
          (kept (mute_id d.next_mute) ready.apart ∙ ready.mute_free) in
      let (v, v') =
        list_control-last volume scope d.next_volume (ground arith) d.controls.volume_controls
          ready.few_volumes in
      let (m, m') =
        list_control-last mute scope d.next_mute (ground arith) d.controls.mute_controls
          ready.few_mutes in
      let owned_volume : EquippedDevice F = record d {
        created = created;
        next_volume = d.next_volume + 1;
        volume_scope = volume.scope;
        controls = c;
      } in
      let owned_mute : EquippedDevice F = record owned_volume {
        next_mute = d.next_mute + 1;
        mute_scope = mute.scope;
        controls = c';
      } in
      (
        attach_mute_control volume_id mute_id stream_id enqueues stream (some d.next_mute) (
            attach_volume_control volume_id mute_id stream_id enqueues stream (some d.next_volume)
              owned_mute),
        ground (arith, e, e'),
        record {
          listed = last;
          found = here;
          volume_attached = ground arith;
          volume_listed =
              ap
                (λ t.
                  get_elem? (list_at scope t.by_scope) (get_volume_control_count scope d.controls))
                (vs' ∙ vs)
              ∙ v;
          volume_found = ap (λ t. lookup (volume_id d.next_volume) t.by_id) (vs' ∙ vs) ∙ v';
          mute_attached = ground arith;
          mute_listed =
              ap
                (λ t.
                  get_elem? (list_at scope t.by_scope) (get_mute_control_count scope d.controls))
                (ms' ∙ ap (list_control mute d.next_mute) ms)
              ∙ m;
          mute_found =
              ap (λ t. lookup (mute_id d.next_mute) t.by_id)
                (ms' ∙ ap (list_control mute d.next_mute) ms)
              ∙ m';
        },
      )

  -- If the new controls have no owner yet and different identifiers, and the streams of the
  -- direction and the controls of each kind in its scope are fewer than 2 ^ 32, then adding a stream
  -- with controls returns, whether changes are enqueued or made at once. The stream becomes the last
  -- one of its direction, and has attached a new volume control and a new mute control, which become
  -- the last ones of the scope of that direction; all three are found by their identifiers.
  pub add_stream_with_controls_async-IsEquipped :
      (params : StreamParameters F) (d : EquippedDevice F)
      → IsReady params.direction d
      → (stream : ℕ) × (after : EquippedDevice F) × (add_stream_with_controls_async volume_id
            mute_id stream_id enqueues scope_input scope_output params d
          ≡ done (stream, after))
        × IsEquipped params.direction d stream after
  unfolding add_stream_with_controls_async create_stream_async make_stream
  add_stream_with_controls_async-IsEquipped params d ready =
      let stored : ℕ → StreamParameters F = (make_stream params d.created).1.parameters in
      let direction : ℕ → Direction = λ x. (stored x).direction in
      let stream : ℕ = d.created.next_stream in
      let table : StreamTable = d.created.table in
      let own : direction stream ≡ params.direction = ground arith in
      let few : length (streams (direction stream) table) < 2 ^ 32 =
        subst (λ dir. length (streams dir table) < 2 ^ 32) (sym own) ready.few_streams in
      let (last, here) = add_stream_async-last direction stream_id enqueues stream table few in
      let (after, e, equipped) =
        equip_stream-IsEquipped params.direction stream d
          (create_stream_async stream_id enqueues params d.created).1 ready
          (subst
            (λ dir.
              get_stream_by_index dir (get_stream_count dir table)
                (add_stream_async direction stream_id enqueues (some stream) table)
              ≡ some stream)
            own last)
          here in
      (stream, after, ground (arith, e), equipped)

  -- The same of a stream that is added for a direction.
  pub add_stream_with_controls_for_async-IsEquipped :
      (defaults : StreamParameters F) (dir : Direction) (rate : F) (channels : ℕ)
      (d : EquippedDevice F)
      → IsReady dir d
      → (stream : ℕ) × (after : EquippedDevice F) × (add_stream_with_controls_for_async volume_id
            mute_id stream_id enqueues scope_input scope_output defaults dir rate channels d
          ≡ done (stream, after))
        × IsEquipped dir d stream after
  unfolding add_stream_with_controls_for_async add_stream_with_controls_async
      create_stream_for_async parameters_for
  add_stream_with_controls_for_async-IsEquipped defaults dir rate channels d ready =
      add_stream_with_controls_async-IsEquipped
        (parameters_for defaults dir rate channels d.created) d ready
