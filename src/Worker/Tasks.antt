-- ===== src/Worker/Tasks.antt =====
-- A dispatched task: the memory of the node, and the report.
use turbo_core_dist_ai_clush.Prelude.{
  ℕ, ◌*◌, ◌<◌, ◌^◌, ◌≡◌, refl, ap, ◌∙◌, true, String, ◌≤◌, List, [], ◌∷◌, some, arith, length,
}
use turbo_core_dist_ai_clush.Prelude.Int.{ℤ, pos, ◌+ℤ◌, ◌-ℤ◌, IsInt32, wrap_int32}
use turbo_core_dist_ai_clush.Prelude.Result.{ok}
use turbo_core_dist_ai_clush.Prelude.Size.{ok as gives}
use turbo_core_dist_ai_clush.Protocol.Header.{TransportHeader}
use turbo_core_dist_ai_clush.Protocol.Types.{PacketType, packet_type_to_int, packet_type_of_int}
use turbo_core_dist_ai_clush.Protocol.Json.{JsonLib, JsonLaws}
use turbo_core_dist_ai_clush.Protocol.Packet.{AiSchedulePacket, build, deserialize, header_for}
use turbo_core_dist_ai_clush.Protocol.Packet.RoundTrip.{frame, IsBasePacket, deserialize-serialize}
use turbo_core_dist_ai_clush.Protocol.Messages.Task.{
  TaskDispatch, TaskResultReport, task_dispatch_to_json, task_dispatch_from_json,
  task_result_report_to_json, task_result_report_from_json,
}
use turbo_core_dist_ai_clush.Protocol.Messages.Task.RoundTrip.{
  task_dispatch_from_json-task_dispatch_to_json,
  task_result_report_from_json-task_result_report_to_json,
}
use turbo_core_dist_ai_clush.Worker.{
  WorkerNode, ReportCall, gives_bytes, shuts_down, deletes_client, to_uint16, take_memory,
  give_memory, times_256, result_of, doing, reports, with_packet, report_result, run_inference_task,
  handle_dispatch, handle_packet, simulate_ms,
}
use turbo_core_dist_ai_clush.Worker.Handshake.{IsText, int_as_size-small}

wrap_int32-id : (a : ℤ) → IsInt32 a → wrap_int32 a ≡ a
unfolding wrap_int32
wrap_int32-id a h = ground (arith, h)

-- What is taken off and put back with wrapping around leaves an int32_t as it was.
wrap_int32-cancel :
    (a : ℤ) (u : ℕ) → IsInt32 a → u < 2 ^ 31 → wrap_int32 (wrap_int32 (a -ℤ pos u) +ℤ pos u) ≡ a
unfolding wrap_int32 ◌+ℤ◌ ◌-ℤ◌
wrap_int32-cancel a u h b = ground (arith, h, b)

-- The memory that a task takes, where it has fewer than 2 ^ 23 inputs.
used_memory : (n : ℕ) → n < 2 ^ 23 → times_256 (wrap_int32 (pos n)) ≡ gives (pos (n * 256))
unfolding times_256
used_memory n h = rw (wrap_int32-id (pos n) (ground (arith, h))) (ground (arith, h))

give-take_memory :
    (w : WorkerNode) (u : ℕ)
    → IsInt32 w.m_available_memory_mb
    → u < 2 ^ 31
    → give_memory (pos u) (take_memory (pos u) w) ≡ w
give-take_memory w u h b =
    ap (λ m. record w { m_available_memory_mb = m })
      (wrap_int32-cancel w.m_available_memory_mb u h b)

module _ (J : JsonLib) (L : JsonLaws J) (unset : TransportHeader) (random ticks : ℕ)
    (task : TaskDispatch) (w : WorkerNode) where
  open J use {Json}

  abbrev pub report : AiSchedulePacket Json
  report =
      build J ticks PacketType.task_result_report w.m_node_id
        (task_result_report_to_json J (result_of random task)) unset

  report-IsBasePacket : ticks < 2 ^ 64 → IsBasePacket report.base_header
  unfolding build packet_type_to_int packet_type_of_int
  report-IsBasePacket fits = record {
    seq_fits = fits;
    type_fits = (omega arith, omega arith);
    type_ok = refl;
  }

  handle_dispatch-ok :
      (packet : AiSchedulePacket Json)
      → task_dispatch_from_json J packet.body ≡ ok task
      → length task.inputs < 2 ^ 23
      → IsInt32 w.m_available_memory_mb
      → handle_dispatch J unset random ticks packet w
        ≡ gives (report_result J unset ticks (result_of random task) w)
  unfolding handle_dispatch run_inference_task
  handle_dispatch-ok packet e few h =
      rw (e, handle_dispatch)
        (rw (used_memory (length task.inputs) few) (
          ap (λ x. gives (report_result J unset ticks (result_of random task) x))
            (give-take_memory w (length task.inputs * 256) h (omega (arith, few)))))

  -- The client's connection callback, once it is connected.
  abbrev pub callback : List ℕ → List ReportCall
  callback text = gives_bytes (frame text) (length (frame text)) ∷ shuts_down ∷ deletes_client ∷ []

  report-serialize :
      (text : List ℕ)
      → ticks < 2 ^ 64
      → IsText J L report text
      → length (frame text) < 2 ^ 31
      → (report_result J unset ticks (result_of random task) w
          ≡ doing w
              (reports task.scheduler_ip (to_uint16 task.scheduler_port) (callback text) ∷ []))
        × (deserialize J (frame text) ≡ some (record report { trans_header = header_for text }))
  unfolding report_result with_packet result_of
  report-serialize text fits t small =
      let (out, back) =
        deserialize-serialize J L report text (report-IsBasePacket fits) t.written t.read t.short in
      (
        rw (out, with_packet)
            (ap
              (λ n. doing w (
                reports task.scheduler_ip (to_uint16 task.scheduler_port)
                  (gives_bytes (frame text) n ∷ shuts_down ∷ deletes_client ∷ [])
                ∷ []))
              (int_as_size-small (length (frame text)) small)),
        back,
      )

  result_read :
      IsInt32 task.slice_id
      → IsInt32 task.scheduler_port
      → task_result_report_from_json J (task_result_report_to_json J (result_of random task))
        ≡ ok (result_of random task)
  unfolding result_of
  result_read hs hp =
      task_result_report_from_json-task_result_report_to_json J L (result_of random task) hs
        (omega arith, omega arith) hp

  result_lem :
      let r = result_of random task in
      (r.task_id ≡ task.task_id)
      × (r.slice_id ≡ task.slice_id)
      × (r.success ≡ true)
      × ((ms : ℕ) × (r.cost_ms ≡ pos ms) × (1000 ≤ ms) × (ms < 5000))
  unfolding result_of
  result_lem = (refl, refl, refl, (simulate_ms random, refl, omega arith, omega arith))

  -- A packet that dispatches a task with fewer than 2 ^ 23 inputs, whose numbers fit their C types,
  -- leaves the node as it was, its available memory included, and makes exactly one client, for the
  -- task's scheduler, with the port taken modulo 2 ^ 16. Where the JSON library writes the report in a
  -- text that fits a packet of fewer than 2 ^ 31 bytes and reads it back: once the client is connected,
  -- its callback gives `Send` one packet with its length, shuts the connection down and deletes the
  -- client, and deserializing the packet gives a report with the task's id and slice, that says
  -- success, and whose cost is from 1000 to 4999 milliseconds.
  pub handle_packet-dispatch :
      (seq : ℕ) (sender_id : String) (text : List ℕ)
      → IsInt32 task.slice_id
      → IsInt32 task.scheduler_port
      → IsInt32 w.m_available_memory_mb
      → length task.inputs < 2 ^ 23
      → ticks < 2 ^ 64
      → IsText J L report text
      → length (frame text) < 2 ^ 31
      → (handle_packet J unset random ticks
            (build J seq PacketType.task_dispatch sender_id (task_dispatch_to_json J task) unset)
            w
          ≡ gives (
              doing w
                (reports task.scheduler_ip (to_uint16 task.scheduler_port) (callback text) ∷ [])))
        × ((packet : AiSchedulePacket Json) × (r : TaskResultReport) × (deserialize J (frame text)
              ≡ some packet)
            × (packet.base_header.packet_type ≡ PacketType.task_result_report)
            × (task_result_report_from_json J packet.body ≡ ok r)
            × (r.task_id ≡ task.task_id)
            × (r.slice_id ≡ task.slice_id)
            × (r.success ≡ true)
            × ((ms : ℕ) × (r.cost_ms ≡ pos ms) × (1000 ≤ ms) × (ms < 5000)))
  unfolding handle_packet build
  handle_packet-dispatch seq sender_id text hs hp hm few fits t small =
      let (out, back) = report-serialize text fits t small in
      (
        handle_dispatch-ok
              (build J seq PacketType.task_dispatch sender_id (task_dispatch_to_json J task) unset)
              (task_dispatch_from_json-task_dispatch_to_json J L task hs hp) few hm
            ∙ ap gives out,
        (
          record report { trans_header = header_for text },
          result_of random task,
          back,
          refl,
          result_read hs hp,
          result_lem.0,
          result_lem.1,
          result_lem.2,
          result_lem.3,
        ),
      )
