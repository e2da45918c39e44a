-- ===== src/Sharding/EventManager.antt =====
-- pkg/sharding/event-manager.go: the manifest template, as generated.
use shard_controller.Prelude.{String}

abbrev pub event_manager_template : String
event_manager_template =
    "apiVersion: apps/v1\nkind: Deployment\nmetadata:\n  labels:\n    control-plane: event-manager\n  name: event-manager-{{.SHARD}}\n  namespace: projectsveltos\nspec:\n  replicas: 1\n  selector:\n    matchLabels:\n      control-plane: event-manager\n  template:\n    metadata:\n      annotations:\n        kubectl.kubernetes.io/default-container: manager\n      labels:\n        control-plane: event-manager\n    spec:\n      containers:\n      - args:\n        - --diagnostics-address=:8443\n        - --shard-key={{.SHARD}}\n        - --capi-onboard-annotation=\n        - --v=5\n        - --version=v1.17.0\n        - --agent-in-mgmt-cluster=false\n        command:\n        - /manager\n        env:\n        - name: GOMEMLIMIT\n          valueFrom:\n            resourceFieldRef:\n              resource: limits.memory\n        - name: GOMAXPROCS\n          valueFrom:\n            resourceFieldRef:\n              resource: limits.cpu\n        - name: NAMESPACE\n          valueFrom:\n            fieldRef:\n              fieldPath: metadata.namespace\n        image: docker.io/projectsveltos/event-manager@sha256:4014dae7b0c47b4411318fd87d21756b49c2d18bb39e6b2267def5dd18cc25bd\n        livenessProbe:\n          failureThreshold: 3\n          httpGet:\n            path: /healthz\n            port: healthz\n            scheme: HTTP\n          initialDelaySeconds: 15\n          periodSeconds: 20\n        name: manager\n        ports:\n        - containerPort: 8443\n          name: metrics\n          protocol: TCP\n        - containerPort: 9440\n          name: healthz\n          protocol: TCP\n        readinessProbe:\n          failureThreshold: 3\n          httpGet:\n            path: /readyz\n            port: healthz\n            scheme: HTTP\n          initialDelaySeconds: 5\n          periodSeconds: 10\n        resources:\n          limits:\n            cpu: 500m\n            memory: 512Mi\n          requests:\n            cpu: 10m\n            memory: 128Mi\n        securityContext:\n          allowPrivilegeEscalation: false\n          capabilities:\n            drop:\n            - ALL\n      securityContext:\n        runAsNonRoot: true\n        seccompProfile:\n          type: RuntimeDefault\n      serviceAccountName: event-manager\n      terminationGracePeriodSeconds: 10\n"
